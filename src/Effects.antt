-- ===== src/Effects.antt =====
-- What asynchronous code does with operations from outside, such as a repository or a bot: each returns
-- or throws, and changes a state of which nothing is known. A run also keeps the list of the calls that
-- matter, with their answers, the latest first.
use info_room_reservation_si.Prelude.{List, ◌∷◌, Text}

-- What an awaited call does: it returns, or throws an error with a message.
pub data Awaited (A : Type 0) : Type 0 where
  returned : A → Awaited A
  thrown : Text → Awaited A

pub record World (S E : Type 0) : Type 0 where
  pub state : S
  pub calls : List E

-- An operation of something outside, which changes the state.
abbrev pub Operation : Type 0 → Type 0 → Type 0
Operation S A = S → Awaited A × S

abbrev pub Action : Type 0 → Type 0 → Type 0 → Type 0
Action S E A = World S E → Awaited A × World S E

module _ {S E A : Type 0} where
  abbrev pub pure : A → Action S E A
  pure a w = (returned a, w)

  -- A call that is not listed, and one that is.
  abbrev pub look : Operation S A → Action S E A
  look operation w =
      let answer = operation w.state in (answer.0, record { state = answer.1; calls = w.calls })

  abbrev pub call : (Awaited A → E) → Operation S A → Action S E A
  call event operation w =
      let answer = operation w.state in
      (answer.0, record { state = answer.1; calls = event answer.0 ∷ w.calls })

  abbrev pub recover : (Text → Action S E A) → Awaited A × World S E → Awaited A × World S E
  recover f (returned a, w) = (returned a, w)
  recover f (thrown message, w) = f message w

  -- `try m catch (error) handler`, where `m` is awaited
  abbrev pub try : Action S E A → (Text → Action S E A) → Action S E A
  try m handler w = recover handler (m w)

module _ {S E A B : Type 0} where
  abbrev pub continue : (A → Action S E B) → Awaited A × World S E → Awaited B × World S E
  continue f (returned a, w) = f a w
  continue f (thrown message, w) = (thrown message, w)

  infixl 5 ◌>>=◌ ◌>>◌
  abbrev pub ◌>>=◌ : Action S E A → (A → Action S E B) → Action S E B
  ◌>>=◌ m f w = continue f (m w)

  abbrev pub ◌>>◌ : Action S E A → Action S E B → Action S E B
  m >> k = m >>= λ _. k
