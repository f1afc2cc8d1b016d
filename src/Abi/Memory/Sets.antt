-- ===== src/Abi/Memory/Sets.antt =====
-- The allocator of cmd/commandcode/abi.go's memory, and what its uses leave at an address.
use cpa_plugin_commandcode.Base.{
  ℕ, zero, suc, Bytes, Bool, true, false, Option, none, some, [], ◌∷◌, length, take, drop, ltb,
  ◌==◌, ◌≡◌, refl, ap, ◌∙◌, append-nil, arith,
}
use mathlib.Core.Path.{fun_ext}
use cpa_plugin_commandcode.Abi.Memory.{Heap, set, zeros, malloc, memcpy, copy_into, free}

same : (a : ℕ) → (a == a) ≡ true
same a = ground arith

pub set_here : (a : ℕ) (block : Option Bytes) (h : Heap) → set a block h a ≡ block
set_here a block h = ground arith

pub set-set : (a : ℕ) (x y : Option Bytes) (h : Heap) → set a x (set a y h) ≡ set a x h
set-set a x y h = fun_ext λ q. ground arith

pub set_back : (a : ℕ) (x : Option Bytes) (h : Heap) → h a ≡ none → set a none (set a x h) ≡ h
set_back a x h e = fun_ext λ q. ground arith

pub length-zeros : (n : ℕ) → length (zeros n) ≡ n
unfolding zeros
length-zeros zero = refl
length-zeros (suc n) = ap suc (length-zeros n)

drop-zeros : (n : ℕ) → drop n (zeros n) ≡ []
unfolding zeros
drop-zeros zero = refl
drop-zeros (suc n) = drop-zeros n

pub ltb_same : (n : ℕ) → ltb n n ≡ false
ltb_same n = ground arith

pub take-length : (xs : Bytes) → take (length xs) xs ≡ xs
take-length [] = refl
take-length (x ∷ xs) = ap (λ l. x ∷ l) (take-length xs)

-- Whether malloc finds room.
abbrev pub has_room : Option ℕ → Heap → Bool
has_room none h = false
has_room (some a) h = elim (h a) [ none ↦ true | some block ↦ false ]

pub has_room-none : (a : ℕ) (h : Heap) → has_room (some a) h ≡ true → h a ≡ none
has_room-none a h e = ground arith

pub malloc_full :
    (room : Option ℕ) (n : ℕ) (h : Heap) → has_room room h ≡ false → malloc room n h ≡ (none, h)
unfolding malloc
malloc_full none n h e = refl
malloc_full (some a) n h e = ground arith

pub malloc_room :
    (a n : ℕ) (h : Heap) → h a ≡ none → malloc (some a) n h ≡ (some a, set a (some (zeros n)) h)
unfolding malloc
malloc_room a n h e = rw (malloc, e) refl

-- What is copied into new memory of its length is what the memory holds then.
pub memcpy-zeros :
    (a : ℕ) (raw : Bytes) (h : Heap)
    → memcpy a raw (set a (some (zeros (length raw))) h) ≡ some (set a (some raw) h)
unfolding memcpy
memcpy-zeros a raw h =
    rw
      (
        memcpy,
        same a,
        length-zeros (length raw),
        ltb_same (length raw),
        drop-zeros (length raw),
        append-nil raw,
        set-set a (some raw) (some (zeros (length raw))) h,
      )
      refl

-- A copy in new memory.
pub copy_into_room :
    (a : ℕ) (raw : Bytes) (h : Heap)
    → h a ≡ none
    → copy_into raw (malloc (some a) (length raw) h) ≡ some (some a, set a (some raw) h)
unfolding copy_into
copy_into_room a raw h e =
    ap (copy_into raw) (malloc_room a (length raw) h e)
    ∙ ap (λ (o : Option Heap). elim o [ none ↦ none | some h' ↦ some (some a, h') ])
        (memcpy-zeros a raw h)

pub copy_into_full :
    (room : Option ℕ) (raw : Bytes) (h : Heap)
    → has_room room h ≡ false
    → copy_into raw (malloc room (length raw) h) ≡ some (none, h)
unfolding copy_into
copy_into_full room raw h e = ap (copy_into raw) (malloc_full room (length raw) h e)

pub free-set : (a : ℕ) (raw : Bytes) (h : Heap) → h a ≡ some raw → free a h ≡ some (set a none h)
unfolding free
free-set a raw h e = rw (free, e) refl
