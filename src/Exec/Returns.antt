-- ===== src/Exec/Returns.antt =====
-- Total correctness of a run, and how the operations on the heap run.
use kieker_lang_pack_c.Common.{
  ℕ, ◌+◌, ◌≤◌, length, Option, none, some, List, arith, splice, slice, ◌≡◌, ◌≢◌, ◌++◌, ◌∷◌, [], ◌<◌,
  Option-cases, inl, inr,
}
use mathlib.Core.Path.{fun_ext}
use kieker_lang_pack_c.State.{Ptr, State, update}
use kieker_lang_pack_c.Exec.{Exec, ◌>>=◌, ◌+=◌, memcpy, write, set_block, the, load_block}
use kieker_lang_pack_c.Word.Bytes.{
  be_bytes, le_bytes-htonl, le_bytes-bswap_64, length-be_bytes_4, length-be_bytes_8,
}
use kieker_lang_pack_c.Numbers.{serialize_int32, serialize_int64}

-- `m` runs from `s` without a fault, returns `a` and ends in a state with `P`.
pub record Runs {A : Type 0} (m : Exec A) (s : State) (a : A) (P : State → Type 0) : Type 0 where
  pub final : State
  pub run : m s ≡ some (a, final)
  pub post : P final

module _ {A B : Type 0} where
  pub bind :
      (m : Exec A) (k : A → Exec B) {s : State} {a : A} {b : B} {P Q : State → Type 0}
      → Runs m s a P
      → ((s' : State) → P s' → Runs (k a) s' b Q)
      → Runs (m >>= k) s b Q
  bind m k r next =
      let r' = next r.final r.post in
      record { final = r'.final; run = rw (r.run, ◌>>=◌) r'.run; post = r'.post }

pub mono :
    {A : Type 0} {m : Exec A} {s : State} {a : A} {P Q : State → Type 0}
    → Runs m s a P
    → ((s' : State) → P s' → Q s')
    → Runs m s a Q
mono r f = record { final = r.final; run = r.run; post = f r.final r.post }

pub add_to :
    (position : ℕ) {m : Exec ℕ} {s : State} {n : ℕ} {P : State → Type 0}
    → Runs m s n P
    → Runs (position += m) s (position + n) P
add_to position r = record { final = r.final; run = rw (r.run, ◌>>=◌, ◌+=◌); post = r.post }

pub update_self {ℓ} :
    {A : Type ℓ} (f : Ptr → Option A) (p : Ptr) (v : Option A) → update f p v p ≡ v
update_self f p v = ground arith

pub update_ne {ℓ} :
    {A : Type ℓ} (f : Ptr → Option A) (p q : Ptr) (v : Option A) → q ≢ p → update f p v q ≡ f q
update_ne f p q v h = ground arith

module _ (p : Ptr) (s : State) {block : List ℕ} (here : s.heap.blocks p ≡ some block) where
  pub memcpy_runs :
      (offset : ℕ) (bytes : List ℕ)
      → offset + length bytes ≤ length block
      → memcpy p offset bytes s ≡ some (tt, set_block p (some (splice block offset bytes)) s)
  unfolding memcpy
  memcpy_runs offset bytes fits = rw (here, load_block, the, ◌>>=◌) (ground arith)

  pub memcpy_faults :
      (offset : ℕ) (bytes : List ℕ)
      → length block < offset + length bytes
      → memcpy p offset bytes s ≡ none
  unfolding memcpy
  memcpy_faults offset bytes fits = rw (here, load_block, the, ◌>>=◌) (ground arith)

  pub int32_runs :
      (offset value : ℕ)
      → offset + 4 ≤ length block
      → serialize_int32 p offset value s
        ≡ some (4, set_block p (some (splice block offset (be_bytes 4 value))) s)
  unfolding serialize_int32
  int32_runs offset value fits = rw (
    le_bytes-htonl,
    memcpy_runs offset (be_bytes 4 value) (omega (arith, length-be_bytes_4 value)),
    ◌>>=◌,
  )

  pub int64_runs :
      (offset value : ℕ)
      → offset + 8 ≤ length block
      → serialize_int64 p offset value s
        ≡ some (8, set_block p (some (splice block offset (be_bytes 8 value))) s)
  unfolding serialize_int64
  int64_runs offset value fits = rw (
    le_bytes-bswap_64,
    memcpy_runs offset (be_bytes 8 value) (omega (arith, length-be_bytes_8 value)),
    ◌>>=◌,
  )

  -- The state behind a call of `write`, which hands over the first bytes of the block.
  pub write_runs :
      (socket size : ℕ)
      → size ≤ length block
      → write socket p size s
        ≡ some (
          s.world.write_errno (length s.world.writes),
          record s {
            world = record (s.world) {
              writes =
                  s.world.writes ++ record { socket = socket; bytes = slice block 0 size } ∷ [];
            };
          },
        )
  unfolding write
  write_runs socket size fits = rw (here, load_block, the, ◌>>=◌) (ground arith)

module _ {A B C : Type 0} where
  pub >>=_assoc :
      (m : Exec A) (f : A → Exec B) (g : B → Exec C) → (m >>= f) >>= g ≡ m >>= (λ a. f a >>= g)
  >>=_assoc m f g = fun_ext (λ s. elim (Option-cases (m s)) [
    | inl fails ↦ rw (fails, ◌>>=◌)
    | inr ((a, s'), runs) ↦ rw (runs, ◌>>=◌)
  ])
