-- ===== src/Client/Messages.antt =====
-- The message that the client shows at its start: client/messages.go. A message is the bytes that it
-- writes, and the number that crypto/rand gives, or its error, is an argument.
use kappa.Base.{ℕ, zero, suc, String, Bytes, codes, List, [], ◌∷◌, ◌++◌, Option, none, some}
use kappa.Writer.{light_green, light_magenta, light_blue, reset, newline}

pub record Quote : Type 0 where
  pub color : Bytes
  pub author : Bytes
  pub text : Bytes

pub data Message : Type 0 where
  simple_message : Bytes → Message
  quote : Quote → Message
  conversation : List Quote → Message

unfoldable pub write_quote : Quote → Bytes
write_quote q = q.color ++ (codes " " ++ q.author) ++ reset ++ (codes ": " ++ q.text) ++ newline

unfoldable pub write_quotes : List Quote → Bytes
unfolding write_quote
write_quotes [] = []
write_quotes (q ∷ qs) = write_quote q ++ write_quotes qs

-- The `Write` of the three types.
unfoldable pub write_message : Message → Bytes
unfolding write_quotes
write_message (simple_message text) = codes " " ++ text ++ newline
write_message (quote q) = write_quote q
write_message (conversation qs) = write_quotes qs ++ newline

abbrev by_author : Bytes → String → String → Quote
by_author color author text = record { color = color; author = codes author; text = codes text }

abbrev pub messages : List Message
messages =
    simple_message (codes "Welcome to Kappa DB, Yo!")
    ∷ quote (by_author light_magenta "Jessy Pinkman" "Yeah, Bitch! Magnets!")
    ∷ quote (by_author light_magenta "Jessy Pinkman" "Yeah, Science!")
    ∷ quote (by_author light_blue "Saul Goodman" "Better call Saul.")
    ∷ conversation (
        by_author light_green "Walter White" "One particular element comes to mind..."
        ∷ by_author light_magenta "Jessy Pinkman" "Ohhhhh... wire.."
        ∷ [])
    ∷ []

-- `messages[i].Write(w, colors)`; `none` is the panic of an index out of range.
abbrev pub write_at : ℕ → List Message → Option Bytes
write_at i [] = none
write_at zero (m ∷ ms) = some (write_message m)
write_at (suc i) (m ∷ ms) = write_at i ms

unfoldable pub get_message : Option ℕ → Option Bytes
unfolding write_message
get_message none = write_at 0 messages
get_message (some index) = write_at index messages
