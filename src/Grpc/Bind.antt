-- ===== src/Grpc/Bind.antt =====
-- What is known of a method of pkg/grpc/server.go that answered with a message.
use soft_serve.Base.{◌≡◌, refl, Option, none, some, [], ◌∷◌, Text, arith}
use soft_serve.Store.Exec.{Result, ok, err}
use soft_serve.System.{World, Sys}
use soft_serve.Grpc.{Code, Reply, reply, status, Rpc, ◌>>=◌, ◌>>◌, calling, required, given}

module _ {C : Type 0} where
  pub bind_reply :
      {A B : Type 0} (m : Rpc C A) (f : A → Rpc C B) (b : B) (w after : World C)
      → (m >>= f) w ≡ (reply b, after)
      → (a : A) × (middle : World C) × (m w ≡ (reply a, middle)) × (f a middle ≡ (reply b, after))
  unfolding ◌>>=◌
  bind_reply {A = A} {B = B} m f b w after h = split (m w).0 (m w).1 refl
    where
      split :
          (x : Reply A) (middle : World C)
          → m w ≡ (x, middle)
          → (a : A) × (middle' : World C) × (m w ≡ (reply a, middle'))
            × (f a middle' ≡ (reply b, after))
      split (reply a) middle e = (a, middle, e, (rw e at h))
      split (status x) middle e = absurd (ground (arith, (rw e at h)))

  pub calling_reply :
      {A : Type 0} (code : Code) (m : Sys C A) (a : A) (w after : World C)
      → calling code m w ≡ (reply a, after)
      → m w ≡ (ok a, after)
  unfolding calling
  calling_reply {A = A} code m a w after h = split (m w).0 (m w).1 refl
    where
      split : (x : Result A) (middle : World C) → m w ≡ (x, middle) → m w ≡ (ok a, after)
      split (ok b) middle e = ground (arith, e, (rw e at h))
      split (err x) middle e = absurd (ground (arith, (rw e at h)))

  pub required_then :
      {A : Type 0} (t : Text) (n : Rpc C A) (a : A) (w after : World C)
      → (required t >> n) w ≡ (reply a, after)
      → n w ≡ (reply a, after)
  unfolding required ◌>>=◌
  required_then [] n a w after h = absurd (ground (arith, h))
  required_then (c ∷ s) n a w after h = h

  -- a statement on a value and the state, across an optional field
  pub given_then :
      {A B D : Type 0} (P : B → World C → Type 0) (o : Option A) (f : A → Rpc C (Unit {0}))
      (g : A → B → B) (n : Rpc C D) (b : B) (d : D) (w after : World C)
      → ((a : A) (end : World C) → f a w ≡ (reply tt, end) → P b w → P (g a b) end)
      → (given o f >> n) w ≡ (reply d, after)
      → P b w
      → (middle : World C) × P (elim o [ none ↦ b | some a ↦ g a b ]) middle
        × (n middle ≡ (reply d, after))
  unfolding given ◌>>=◌
  given_then P none f g n b d w after k run h = (w, h, run)
  given_then P (some a) f g n b d w after k run h =
      let (_, middle, first, rest) = bind_reply (f a) (λ _. n) d w after run in
      (middle, k a middle first h, rest)
