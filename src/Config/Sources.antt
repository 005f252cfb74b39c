-- ===== src/Config/Sources.antt =====
-- Where the value of a setting comes from: its flag, its environment variable, the file or its default.
use kappa.Base.{
  Bytes, codes, List, [], ◌∷◌, Option, none, some, ◌==◌, nat_eq, list_eq, list_beq, if◌then◌else◌,
  ◌≡◌, refl, ap, ◌∙◌, arith, All,
}
use kappa.Config.{Value, Layers, first_of, Viper, from_env, resolve, ViperLaws}
use kappa.Text.{lower}
use kappa.Config.Table.{flags_of, Row, rows}
use kappa.Config.Steps.{
  Flags, Step, set_default, bind_env, set_if_changed, set_changed, run_step, run_steps,
  server_steps, cert_auth_steps, new_cert_steps, AllFlags, initialize_main_config,
  initialize_server_config, initialize_cert_auth_config, initialize_new_cert_config,
  initialize_config,
}

module _ (v : Viper) (law : ViperLaws v) (flags : Flags) (asked : Bytes) where
  -- What a step does to the view at the key that is asked for.
  abbrev pub step_view : Step → Layers → Layers
  step_view (set_default key x) l =
      if lower key == lower asked then record l { default = some x } else l
  step_view (bind_env key name) l =
      if lower key == lower asked then record l { env_name = some name } else l
  step_view (set_if_changed name key) l =
      if lower key == lower asked
      then record l { explicit = first_of (flags name) l.explicit }
      else l

  abbrev pub steps_view : List Step → Layers → Layers
  steps_view [] l = l
  steps_view (s ∷ ss) l = steps_view ss (step_view s l)

  changed_view :
      (key : Bytes) (x : Option Value) (c : v.Config)
      → v.view (set_changed v flags key x c) asked ≡ (
          if lower key == lower asked
          then record (v.view c asked) { explicit = first_of x (v.view c asked).explicit }
          else v.view c asked)
  changed_view key none c = ground arith
  changed_view key (some x) c = law.view_set c key x asked

  view-run_step :
      (s : Step) (c : v.Config) → v.view (run_step v flags s c) asked ≡ step_view s (v.view c asked)
  view-run_step (set_default key x) c = law.view_default c key x asked
  view-run_step (bind_env key name) c = law.view_env c key name asked
  view-run_step (set_if_changed name key) c = changed_view key (flags name) c

  pub view-run_steps :
      (ss : List Step) (c : v.Config)
      → v.view (run_steps v flags ss c) asked ≡ steps_view ss (v.view c asked)
  view-run_steps [] c = refl
  view-run_steps (s ∷ ss) c =
      view-run_steps ss (run_step v flags s c) ∙ ap (steps_view ss) (view-run_step s c)

abbrev pub blank : Layers
blank = record { explicit = none; env_name = none; file = none; default = none }

pub first_of-none : (a w : Option Value) → first_of (first_of a none) w ≡ first_of a w
first_of-none none w = refl
first_of-none (some x) w = refl

module _ (v : Viper) (law : ViperLaws v) (f : AllFlags) (c : v.Config) where
  abbrev main_view : Bytes → Layers → Layers
  main_view asked l =
      record (step_view v law f.main asked (set_if_changed (codes "config") (codes "ConfigPath"))
        l) { file = v.files asked }

  abbrev final_view : Bytes → Layers → Layers
  final_view asked l = steps_view v law f.new_cert asked new_cert_steps (
      steps_view v law f.init_ca asked cert_auth_steps
        (steps_view v law f.server asked server_steps (main_view asked l)))

  view-main :
      (asked : Bytes)
      → v.view (initialize_main_config v f.main c) asked ≡ main_view asked (v.view c asked)
  unfolding initialize_main_config
  view-main asked =
      law.view_read (set_changed v f.main (codes "ConfigPath") (f.main (codes "config")) c) asked
      ∙ ap (λ (l : Layers). record l { file = v.files asked })
          (changed_view v law f.main asked (codes "ConfigPath") (f.main (codes "config")) c)

  view-initialize_config :
      (asked : Bytes) → v.view (initialize_config v f c) asked ≡ final_view asked (v.view c asked)
  unfolding initialize_config initialize_server_config initialize_cert_auth_config
      initialize_new_cert_config
  view-initialize_config asked =
      let main = initialize_main_config v f.main c in
      let server = initialize_server_config v f.server main in
      let cert = initialize_cert_auth_config v f.init_ca server in
      view-run_steps v law f.new_cert asked new_cert_steps cert
      ∙ ap (steps_view v law f.new_cert asked new_cert_steps) (
          view-run_steps v law f.init_ca asked cert_auth_steps server
          ∙ ap (steps_view v law f.init_ca asked cert_auth_steps) (
              view-run_steps v law f.server asked server_steps main
              ∙ ap (steps_view v law f.server asked server_steps) (view-main asked)))

  -- The flag of its command, its environment variable, the file and the default, in this order.
  abbrev pub IsResolved : Row → Type 0
  IsResolved r =
      v.get (initialize_config v f c) r.key
      ≡ first_of (flags_of r.command f r.flag_name)
          (first_of (from_env v r.variable) (first_of (v.files r.key) r.default))

  abbrev IsSettled : Row → Type 0
  IsSettled r = final_view r.key blank ≡ record {
    explicit = first_of (flags_of r.command f r.flag_name) none;
    env_name = r.variable;
    file = v.files r.key;
    default = r.default;
  }

  resolved : v.view c ≡ (λ k. blank) → (r : Row) → IsSettled r → IsResolved r
  resolved fresh r e =
      law.get_resolves (initialize_config v f c) r.key
      ∙ ap (resolve v) (
          view-initialize_config r.key
          ∙ ap (λ (w : Bytes → Layers). final_view r.key (w r.key)) fresh
          ∙ e)
      ∙ first_of-none (flags_of r.command f r.flag_name) _

  all-IsResolved : v.view c ≡ (λ k. blank) → (rs : List Row) → All IsSettled rs → All IsResolved rs
  all-IsResolved fresh [] h = tt
  all-IsResolved fresh (r ∷ rs) (e, h) = (resolved fresh r e, all-IsResolved fresh rs h)

  rows-IsSettled : All IsSettled rows
  unfolding list_beq
  rows-IsSettled = (
    refl,
    (
      refl,
      (
        refl,
        (
          refl,
          (
            refl,
            (
              refl,
              (
                refl,
                (
                  refl,
                  (
                    refl,
                    (
                      refl,
                      (
                        refl,
                        (
                          refl,
                          (
                            refl,
                            (
                              refl,
                              (
                                refl,
                                (
                                  refl,
                                  (
                                    refl,
                                    (refl, (refl, (refl, (refl, (refl, (refl, (refl, tt))))))),
                                  ),
                                ),
                              ),
                            ),
                          ),
                        ),
                      ),
                    ),
                  ),
                ),
              ),
            ),
          ),
        ),
      ),
    ),
  )

  -- After InitializeConfig every setting of the table has the value of its flag where that flag of its
  -- command is changed, else that of its environment variable, else that in the file, else its default.
  -- The settings of the certificate authority, which new-cert reads too, have the flags of init-ca as
  -- their only flags. Viper knew of no key before.
  pub initialize_config-IsResolved : v.view c ≡ (λ k. blank) → All IsResolved rows
  initialize_config-IsResolved fresh = all-IsResolved fresh rows rows-IsSettled
