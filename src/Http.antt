-- ===== src/Http.antt =====
-- What the handlers use of net/http's response writers.
use evictor.Prelude.{ℕ, String, Option, none, some, List, [], ◌∷◌}

-- What a handler has sent: the headers, the code given to `WriteHeader`, and the encoded value.
pub record Writer {ℓ} (Body : Type ℓ) : Type ℓ where
  pub headers : List (String × String)
  pub code : Option ℕ
  pub body : Option Body

abbrev pub new_writer {ℓ} : {Body : Type ℓ} → Writer Body
new_writer = record { headers = []; code = none; body = none }

module _ {ℓ} {Body : Type ℓ} where
  abbrev pub set_header : String → String → Writer Body → Writer Body
  set_header key value w = record w { headers = (key, value) ∷ w.headers }

  -- Only the first call of `WriteHeader` counts.
  abbrev pub write_header : ℕ → Writer Body → Writer Body
  write_header code w = elim w.code [ none ↦ record w { code = some code } | some _ ↦ w ]
