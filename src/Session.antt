-- ===== src/Session.antt =====
-- What a request handler returns, and the transaction around it (backend/app/db.py, `get_db`).
use local_ai_search.Prelude.{ℕ, ◌≡◌, refl, ap, Bool, true, false, Option, none, some}

-- A handler replies with a value, or raises `HTTPException` with its status code.
pub data Reply (A : Type 0) : Type 0 where
  http_error : ℕ → Reply A
  reply : A → Reply A

infixl 5 ◌>>=◌
abbrev pub ◌>>=◌ : {A B : Type 0} → Reply A → (A → Reply B) → Reply B
http_error status >>= next = http_error status
reply value >>= next = next value

-- `if not condition: raise HTTPException(status)`
abbrev pub require : (condition : Bool) (status : ℕ) → Reply (Unit {0})
require false status = http_error status
require true status = reply tt

infixl 5 ◌>>◌
abbrev pub ◌>>◌ : {B : Type 0} → Reply (Unit {0}) → Reply B → Reply B
first >> next = first >>= λ done. next

-- `if row is None: raise HTTPException(status)`
abbrev pub found : {A : Type 0} → Option A → (status : ℕ) → Reply A
found none status = http_error status
found (some row) status = reply row

abbrev settle : {A S : Type 0} → S → Reply A × S → Reply A × S
settle before (http_error status, after) = (http_error status, before)
settle before (reply value, after) = (reply value, after)

-- The session commits when the handler returns, and rolls back what the handler wrote when it raises.
-- A handler here is given the rows, and gives its reply and the rows that it has written by then.
unfoldable pub get_db : {A S : Type 0} → (S → Reply A × S) → S → Reply A × S
get_db handler before = settle before (handler before)

value_of_reply : {A : Type 0} → A → Reply A → A
value_of_reply a (http_error status) = a
value_of_reply a (reply value) = value

pub reply-injective : {A : Type 0} (x y : A) → reply x ≡ reply y → x ≡ y
unfolding value_of_reply
reply-injective x y e = ap (value_of_reply x) e

-- A request that is answered has passed its guard, and found its row.
pub required :
    {A : Type 0} (condition : Bool) (status : ℕ) (next : Reply A) {a : A}
    → (require condition status >> next) ≡ reply a
    → (condition ≡ true) × (next ≡ reply a)
required true status next e = (refl, e)
required false status next e = cc

pub answered :
    {A B : Type 0} (first : Reply A) (next : A → Reply B) {answer : B}
    → (first >>= next) ≡ reply answer
    → (value : A) × (first ≡ reply value) × (next value ≡ reply answer)
answered (http_error status) next e = cc
answered (reply value) next e = (value, refl, e)

pub found_row :
    {A B : Type 0} (row : Option A) (status : ℕ) (next : A → Reply B) {b : B}
    → (found row status >>= next) ≡ reply b
    → (a : A) × (row ≡ some a) × (next a ≡ reply b)
found_row none status next e = cc
found_row (some a) status next e = (a, refl, e)
