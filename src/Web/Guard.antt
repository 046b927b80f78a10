-- ===== src/Web/Guard.antt =====
-- `Guard`: the size limit of a request's body and the headers of a response.
use vault_db_access.Prelude.{
  lookup_last, ℕ, Bool, true, false, not, ◌&&◌, ◌||◌, Option, none, some, List, [], ◌∷◌, ◌+◌, ◌-◌,
  eq_ℕ, ◌*◌, ltb, ◌==◌, eq_Text, if◌then◌else◌, all, Text, codes, is_digit,
}

-- `config.BODY_LIMIT`
abbrev pub body_limit : ℕ
body_limit = 65536

-- `bytes.isdigit()`, and `int` of such a text
unfoldable pub all_digits : Text → Bool
all_digits [] = false
all_digits (c ∷ s) = all is_digit (c ∷ s)

unfoldable pub digits_value : ℕ → Text → ℕ
digits_value acc [] = acc
digits_value acc (c ∷ s) = digits_value (10 * acc + (c - b'0')) s

abbrev by_length : Option Text → Option Text → Option (ℕ × Text)
by_length te none = none
by_length none (some length) =
    if not (all_digits length) || ltb body_limit (digits_value 0 length)
    then some (413, codes "request body too large")
    else none
by_length (some te) (some length) =
    some (400, codes "Transfer-Encoding and Content-Length together")

-- What `Guard.__call__` decides by the headers: a status and a text to reject with.
unfoldable pub header_verdict : List (Text × Text) → Option (ℕ × Text)
unfolding lookup_last all_digits digits_value
header_verdict headers =
    by_length (lookup_last (codes "transfer-encoding") headers)
      (lookup_last (codes "content-length") headers)

-- The messages of the request's stream: body bytes by their number, or another kind of message.
pub data Chunk : Type 0 where
  request : ℕ → Chunk
  disconnect : Chunk

-- `counting_receive`, for each message that the application asks for: what it is handed until the
-- limit is passed, and whether it was.
unfoldable pub counting_receive : ℕ → List Chunk → List Chunk × Bool
counting_receive received [] = ([], false)
counting_receive received (disconnect ∷ rest) =
    let (handed, exceeded) = counting_receive received rest in (disconnect ∷ handed, exceeded)
counting_receive received (request n ∷ rest) =
    let more = counting_receive (received + n) rest in
    if ltb body_limit (received + n) then ([], true) else (request n ∷ more.0, more.1)

-- `send_wrapper`: the status that goes out, and the headers that are added.
abbrev pub sent_status : Bool → ℕ → ℕ
sent_status exceeded status = if exceeded && (status == 400) then 413 else status
