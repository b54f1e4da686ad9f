-- ===== src/Consensus/Channel.antt =====
-- Bounded mpsc channels of futures and tokio, by their documented behaviour: an interface.
use allegro.Prelude.{
  ℕ, ◌≤◌, ◌<◌, ◌≡◌, Bool, true, false, List, [], ◌∷◌, ◌++◌, Option, some, Result, ok, err, length,
}

pub data SendError : Type 0 where
  full closed : SendError

-- `C` is the state of a channel of `A`.
pub record Channel (A C : Type 0) : Type 0 where
  pub try_send : A → C → Result (Unit {0}) SendError × C
  pub next : C → Option A × C
  pub queued : C → List A
  pub is_open : C → Bool
  pub capacity : C → ℕ
  -- `send(…).await`, which waits for room: `true` if the message was taken.
  pub send : A → C → Bool × C
  pub send-ok :
      (a : A) (c : C)
      → is_open c ≡ true
      → length (queued c) < capacity c
      → ((try_send a c).0 ≡ ok tt) × (queued (try_send a c).1 ≡ queued c ++ a ∷ [])
  pub send-full :
      (a : A) (c : C)
      → is_open c ≡ true
      → capacity c ≤ length (queued c)
      → ((try_send a c).0 ≡ err full) × (queued (try_send a c).1 ≡ queued c)
  pub send-closed :
      (a : A) (c : C)
      → is_open c ≡ false
      → ((try_send a c).0 ≡ err closed) × (queued (try_send a c).1 ≡ queued c)
  pub send-keeps :
      (a : A) (c : C)
      → (is_open (try_send a c).1 ≡ is_open c) × (capacity (try_send a c).1 ≡ capacity c)
  pub send-room :
      (a : A) (c : C)
      → is_open c ≡ true
      → length (queued c) < capacity c
      → ((send a c).0 ≡ true) × (queued (send a c).1 ≡ queued c ++ a ∷ [])
  pub next-queued :
      (c : C) (a : A) (rest : List A)
      → queued c ≡ a ∷ rest
      → ((next c).0 ≡ some a) × (queued (next c).1 ≡ rest)
