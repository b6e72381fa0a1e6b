-- ===== src/Socket/Queue.antt =====
-- The ring of waiting connections in `accept_queue` of src/socket.c, and the message counter.
use kfs.Prelude.{
  ℕ, zero, suc, ◌+◌, ◌-◌, ◌%◌, ◌<◌, ◌≤◌, ◌≡◌, ◌≢◌, refl, ap, Option, none, some, List, [], ◌∷◌,
  ◌++◌, arith, ltb, if◌then◌else◌, length, length-set, length-append, inl, inr, get_or, set,
  Bool-cases, ◌==◌, get_or-set_self, get_or-set_ne,
}
use kfs.Socket.{Socket, Message, free_socket}
use kfs.Socket.Transfer.{queue_front, dequeue, enqueue, deliver}

-- `n` entries of the ring from index `h` on.
abbrev pub window : List (Option ℕ) → ℕ → ℕ → List (Option ℕ)
window q h zero = []
window q h (suc n) = get_or q h none ∷ window q ((h + 1) % 16) n

-- The connections that wait, oldest first.
abbrev pub pending : Socket → List (Option ℕ)
pending s = window s.accept_queue s.accept_queue_head s.accept_queue_count

pub record IsValid (s : Socket) : Type 0 where
  pub slots : length s.accept_queue ≡ 16
  pub head_in : s.accept_queue_head < 16
  pub few : s.accept_queue_count ≤ 16
  pub tail_at : s.accept_queue_tail ≡ (s.accept_queue_head + s.accept_queue_count) % 16
  pub counted : s.msg_count ≡ length s.msg_queue

window-set :
    (q : List (Option ℕ)) (x : Option ℕ) (n h i : ℕ)
    → length q ≡ 16
    → h < 16
    → n < 16
    → i ≡ (h + n) % 16
    → window (set q i x) h (suc n) ≡ window q h n ++ (x ∷ [])
window-set q x zero h i l hh hn e =
    let e' : i ≡ h = omega arith in rw (e', get_or-set_self q h x none (omega arith))
window-set q x (suc n) h i l hh hn e = rw (
  get_or-set_ne q i h x none (omega arith),
  window-set q x n ((h + 1) % 16) i l (omega arith) (omega arith) (omega arith),
)

-- Connecting to a socket on which fewer than 16 connections wait puts the new one last in line.
pub enqueue-pending :
    (s : Socket) (n : ℕ)
    → IsValid s
    → pending (enqueue n s)
      ≡ (if ltb s.accept_queue_count 16 then pending s ++ (some n ∷ []) else pending s)
enqueue-pending s n v = ground (
  arith,
  window-set s.accept_queue (some n) s.accept_queue_count s.accept_queue_head s.accept_queue_tail,
)

pub enqueue-IsValid : (n : ℕ) (s : Socket) → IsValid s → IsValid (enqueue n s)
enqueue-IsValid n s v = ground (arith, length-set s.accept_queue s.accept_queue_tail (some n))

dequeue-pending :
    (s : Socket) → s.accept_queue_count ≢ 0 → pending s ≡ queue_front s ∷ pending (dequeue s)
dequeue-pending s h = go s.accept_queue_count h
  where
    go :
        (n : ℕ)
        → n ≢ 0
        → window s.accept_queue s.accept_queue_head n
          ≡ queue_front s ∷ window s.accept_queue ((s.accept_queue_head + 1) % 16) (n - 1)
    go zero h = absurd (h refl)
    go (suc n) h =
        ap (λ k. queue_front s ∷ window s.accept_queue ((s.accept_queue_head + 1) % 16) k)
          (omega arith)

pub dequeue-IsValid : (s : Socket) → IsValid s → s.accept_queue_count ≢ 0 → IsValid (dequeue s)
dequeue-IsValid s v h = omega arith

pub deliver-IsValid : (m : Message) (s : Socket) → IsValid s → IsValid (deliver m s)
deliver-IsValid m s v = ground (arith, length-append s.msg_queue (m ∷ []))

pub free-IsValid : IsValid free_socket
free-IsValid = record {
  slots = refl;
  head_in = omega arith;
  few = omega arith;
  tail_at = refl;
  counted = refl;
}

pending_zero : (s : Socket) → s.accept_queue_count ≡ 0 → pending s ≡ []
pending_zero s e = ap (window s.accept_queue s.accept_queue_head) e

-- The line is empty exactly when the count is 0.
pub pending-nil : (s : Socket) → pending s ≡ [] → s.accept_queue_count ≡ 0
pending-nil s p = elim (Bool-cases (s.accept_queue_count == 0)) [
  | inl z ↦ ground arith
  | inr nz ↦ absurd (ground (arith, dequeue-pending s (ground arith)))
]

pub record Front (s : Socket) (x : Option ℕ) (rest : List (Option ℕ)) : Type 0 where
  pub some_wait : s.accept_queue_count ≢ 0
  pub first : queue_front s ≡ x
  pub others : pending (dequeue s) ≡ rest

pub pending-cons :
    (s : Socket) (x : Option ℕ) (rest : List (Option ℕ)) → pending s ≡ x ∷ rest → Front s x rest
pending-cons s x rest p = elim (Bool-cases (s.accept_queue_count == 0)) [
  | inl z ↦ absurd (ground (arith, pending_zero s))
  | inr nz ↦ record {
    some_wait = ground arith;
    first = ground (arith, dequeue-pending s (ground arith));
    others = ground (arith, dequeue-pending s (ground arith));
  }
]
