-- ===== src/Memory/Normal/Invariant.antt =====
-- How the buffers of an executor lie in memory.
pub mod Shape
pub mod Join
pub mod Cut
pub mod Chunk
pub mod Drop
pub mod Listed
use kupl.Prelude.{ℕ, ◌+◌, ◌≤◌, ◌<◌, ◌≡◌, sym, subst, ◌∙◌, ◌⊎◌, inl, inr, Bool, true, false}
use kupl.Prelude.Int.{ℤ, pos, negsuc, pos_part, neg_part}
use kupl.Memory.{whole_chunk}

-- Where the descriptors are, which of them end a chunk, and the chunk of each.
pub record Map : Type 0 where
  pub starts : ℕ → Bool
  pub ends : ℕ → Bool
  pub base : ℕ → ℕ

abbrev pub width : ℤ → ℕ
width z = pos_part z + neg_part z

abbrev pub IsBuffer : Map → ℕ → Type 0
IsBuffer m a = (m.starts a ≡ true) × (m.ends a ≡ false)

-- Before the descriptor at `c` there is a free buffer of so many bytes.
pub record FreeBefore (m : Map) (size : ℕ → ℤ) (c n : ℕ) : Type 0 where
  pub at : ℕ
  pub is_buffer : IsBuffer m at
  pub is_free : size at ≡ pos n
  pub meets : at + n ≡ c

-- What a descriptor says of a free buffer before it is true.
abbrev pub IsMarked : Map → (ℕ → ℤ) → (ℕ → ℕ) → Type 0
IsMarked m size prev = (c : ℕ) → m.starts c ≡ true → (prev c ≡ 0) ⊎ FreeBefore m size c (prev c)

-- Buffers fill their chunk and do not overlap.
pub record Layout (m : Map) (size : ℕ → ℤ) : Type 0 where
  pub end_starts : (c : ℕ) → m.ends c ≡ true → m.starts c ≡ true
  pub end_used : (c : ℕ) → m.ends c ≡ true → size c ≡ negsuc 0
  pub end_iff : (c : ℕ) → m.starts c ≡ true → c ≡ m.base c + whole_chunk → m.ends c ≡ true
  pub some_width : (a : ℕ) → IsBuffer m a → 0 < width (size a)
  pub next_starts : (a : ℕ) → IsBuffer m a → m.starts (a + width (size a)) ≡ true
  pub next_base : (a : ℕ) → IsBuffer m a → m.base (a + width (size a)) ≡ m.base a
  pub apart : (a c : ℕ) → IsBuffer m a → a < c → c < a + width (size a) → m.starts c ≡ false
  pub above : (c : ℕ) → m.starts c ≡ true → m.base c ≤ c
  pub within : (c : ℕ) → m.starts c ≡ true → c ≤ m.base c + whole_chunk

-- Only sizes and marks at descriptors matter.
module _ (m : Map) (size size' : ℕ → ℤ) (e : (a : ℕ) → m.starts a ≡ true → size a ≡ size' a) where
  pub Layout-same : Layout m size → Layout m size'
  Layout-same w = record {
    end_starts = w.end_starts;
    end_used = λ c q. sym (e c (w.end_starts c q)) ∙ w.end_used c q;
    end_iff = w.end_iff;
    some_width = λ a b. subst (λ (z : ℤ). 0 < width z) (e a b.0) (w.some_width a b);
    next_starts =
        λ a b. subst (λ (z : ℤ). m.starts (a + width z) ≡ true) (e a b.0) (w.next_starts a b);
    next_base =
        λ a b. subst (λ (z : ℤ). m.base (a + width z) ≡ m.base a) (e a b.0) (w.next_base a b);
    apart = λ a c b.
        subst (λ (z : ℤ). a < c → c < a + width z → m.starts c ≡ false) (e a b.0) (w.apart a c b);
    above = w.above;
    within = w.within;
  }

  pub IsMarked-same :
      (prev prev' : ℕ → ℕ)
      → ((a : ℕ) → m.starts a ≡ true → prev a ≡ prev' a)
      → IsMarked m size prev
      → IsMarked m size' prev'
  IsMarked-same prev prev' f w c q = told (f c q) (w c q)
    where
      told :
          prev c ≡ prev' c
          → (prev c ≡ 0) ⊎ FreeBefore m size c (prev c)
          → (prev' c ≡ 0) ⊎ FreeBefore m size' c (prev' c)
      told p (inl z) = inl (sym p ∙ z)
      told p (inr b) = inr (
          subst (FreeBefore m size' c) p (record {
            at = b.at;
            is_buffer = b.is_buffer;
            is_free = sym (e b.at b.is_buffer.0) ∙ b.is_free;
            meets = b.meets;
          }))
