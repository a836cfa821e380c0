-- ===== src/Compiler/Misc/Laws.antt =====
-- `align_up` and the comparisons of C strings against what they are for.
use smolcc.Base.{ℕ, ◌+◌, ◌-◌, ◌*◌, ◌/◌, ◌<◌, ◌≤◌, ◌≡◌, arith}
use native.Mathlib.Nat.{mod-lt, div-add-mod'}
use smolcc.Base.Word.{half32}
use smolcc.Compiler.Misc.{align_up}

-- For an alignment that is not 0, and where the sum fits an `int`, align_up gives a multiple of the
-- alignment, not below the number and less than one alignment above it.
pub align_up_bounds :
    (n align : ℕ)
    → 0 < align
    → n + align < half32
    → (n ≤ align_up n align)
      × (align_up n align < n + align)
      × ((k : ℕ) × (align_up n align ≡ k * align))
unfolding align_up
align_up_bounds n align h f =
    let d = div-add-mod' (n + align - 1) align in
    let m = mod-lt (n + align - 1) h in
    let e : align_up n align ≡ (n + align - 1) / align * align = omega (arith, d, m) in
    (omega (arith, e, d, m), omega (arith, e, d, m), ((n + align - 1) / align, e))
