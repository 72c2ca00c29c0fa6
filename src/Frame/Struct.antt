-- ===== src/Frame/Struct.antt =====
-- The formats of Python's `struct` that modbus_sim/frame.py packs and unpacks, on numbers that
-- are not negative. `pack` raises `struct.error` where a value does not fit its field, and `unpack` where
-- the length is not the format's.
use modbus_sim.Prelude.{ℕ, List, [], ◌∷◌, ◌&&◌, ltb, if◌then◌else◌, Bytes, be16, hi8, lo8}
use modbus_sim.Result.{Result, ok, err, struct_error, ◌>>=◌}

-- ">BB"
unfoldable pub pack_bb : ℕ → ℕ → Result Bytes
pack_bb a b = if ltb a 256 && ltb b 256 then ok (a ∷ b ∷ []) else err struct_error

-- ">BHH"
unfoldable pub pack_bhh : ℕ → ℕ → ℕ → Result Bytes
pack_bhh a b c =
    if ltb a 256 && (ltb b 65536 && ltb c 65536)
    then ok (a ∷ hi8 b ∷ lo8 b ∷ hi8 c ∷ lo8 c ∷ [])
    else err struct_error

-- ">BHHB"
unfoldable pub pack_bhhb : ℕ → ℕ → ℕ → ℕ → Result Bytes
pack_bhhb a b c d =
    if ltb a 256 && (ltb b 65536 && (ltb c 65536 && ltb d 256))
    then ok (a ∷ hi8 b ∷ lo8 b ∷ hi8 c ∷ lo8 c ∷ d ∷ [])
    else err struct_error

-- ">HHHB"
unfoldable pub pack_hhhb : ℕ → ℕ → ℕ → ℕ → Result Bytes
pack_hhhb a b c d =
    if ltb a 65536 && (ltb b 65536 && (ltb c 65536 && ltb d 256))
    then ok (hi8 a ∷ lo8 a ∷ hi8 b ∷ lo8 b ∷ hi8 c ∷ lo8 c ∷ d ∷ [])
    else err struct_error

-- f">{n}H" for the n values given
unfoldable pub pack_words : List ℕ → Result Bytes
pack_words [] = ok []
pack_words (x ∷ xs) = do
  rest ← pack_words xs
  if ltb x 65536 then ok (hi8 x ∷ lo8 x ∷ rest) else err struct_error

unfoldable pub unpack_bhh : Bytes → Result (ℕ × ℕ × ℕ)
unpack_bhh (a ∷ b ∷ c ∷ d ∷ e ∷ []) = ok (a, be16 b c, be16 d e)
unpack_bhh _ = err struct_error

unfoldable pub unpack_bhhb : Bytes → Result (ℕ × ℕ × ℕ × ℕ)
unpack_bhhb (a ∷ b ∷ c ∷ d ∷ e ∷ f ∷ []) = ok (a, be16 b c, be16 d e, f)
unpack_bhhb _ = err struct_error

unfoldable pub unpack_hhhb : Bytes → Result (ℕ × ℕ × ℕ × ℕ)
unpack_hhhb (a ∷ b ∷ c ∷ d ∷ e ∷ f ∷ g ∷ []) = ok (be16 a b, be16 c d, be16 e f, g)
unpack_hhhb _ = err struct_error

-- f">{len(data) // 2}H"
unfoldable pub unpack_words : Bytes → Result (List ℕ)
unpack_words [] = ok []
unpack_words (a ∷ []) = err struct_error
unpack_words (a ∷ b ∷ rest) = do words ← unpack_words rest; ok (be16 a b ∷ words)
