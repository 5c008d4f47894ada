-- ===== src/Tests/Tokens.antt =====
-- The tokenizer at concrete inputs.
use armliving_objects.Base.{◌≡◌, refl, arith, [], ◌∷◌, ◌++◌}
use armliving_objects.Tokenizer.{string, integer, text_token, bt_next}
use armliving_objects.Tokenizer.Progress.{IsNext, bt_next-IsNext}
use armliving_objects.Tokenizer.Strings.{escape, decimal, bt_next-escape, bt_next-decimal}

bt_next-IsNext_example :
    let (token, rest) = bt_next (32 ∷ 97 ∷ 58 ∷ 49 ∷ []) in
    IsNext (32 ∷ 97 ∷ 58 ∷ 49 ∷ []) token rest
bt_next-IsNext_example = bt_next-IsNext (32 ∷ 97 ∷ 58 ∷ 49 ∷ [])

-- It's
bt_next-escape_example :
    bt_next (39 ∷ escape (73 ∷ 116 ∷ 39 ∷ 115 ∷ []) ++ 39 ∷ 46 ∷ [])
    ≡ (text_token string (73 ∷ 116 ∷ 39 ∷ 115 ∷ []), 46 ∷ [])
bt_next-escape_example =
    bt_next-escape (73 ∷ 116 ∷ 39 ∷ 115 ∷ []) (46 ∷ [])
      (ground arith, (ground arith, (ground arith, (ground arith, tt)))) (omega arith)
      (ground arith)

bt_next-decimal_example :
    bt_next (52 ∷ (50 ∷ []) ++ 46 ∷ [])
    ≡ (record { type = integer; text = 52 ∷ 50 ∷ []; int_value = decimal (52 ∷ 50 ∷ []) }, 46 ∷ [])
bt_next-decimal_example =
    bt_next-decimal 52 (50 ∷ []) (46 ∷ []) (refl, (refl, tt)) refl (omega arith) (omega arith)
