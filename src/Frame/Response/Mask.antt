-- ===== src/Frame/Response/Mask.antt =====
-- The exception mask on the numbers that a byte holds, checked at every one.
use Prim.Native.Nat.{◌-◌}
use modbus_sim.Prelude.{
  ℕ, ◌+◌, ◌<◌, ◌≡◌, refl, true, false, arith, ltb, ◌==◌, if◌then◌else◌, ==_iff, all_below,
  all_below_sound, bit_or, bit_and,
}
use modbus_sim.Frame.Response.{is_exception, clear_mask, set_mask}

and_table : all_below 256 (λ x. bit_and x 128 == (if ltb x 128 then 0 else 128)) ≡ true
unfolding all_below
and_table = refl

or_table : all_below 256 (λ x. bit_or x 128 == (if ltb x 128 then x + 128 else x)) ≡ true
unfolding all_below
or_table = refl

bit_and_mask : (x : ℕ) → x < 256 → bit_and x 128 ≡ (if ltb x 128 then 0 else 128)
bit_and_mask x h = (==_iff _ _).0 (all_below_sound 256 _ x and_table h)

pub set_mask_lem : (x : ℕ) → x < 256 → set_mask x ≡ (if ltb x 128 then x + 128 else x)
unfolding set_mask
set_mask_lem x h = (==_iff _ _).0 (all_below_sound 256 _ x or_table h)

pub clear_mask_lem : (x : ℕ) → x < 256 → clear_mask x ≡ (if ltb x 128 then x else x - 128)
unfolding clear_mask
clear_mask_lem x h = ground (arith, bit_and_mask x h)

pub is_exception_lem : (x : ℕ) → x < 256 → is_exception x ≡ (if ltb x 128 then false else true)
unfolding is_exception
is_exception_lem x h = ground (arith, bit_and_mask x h)
