-- ===== src/Mir/Inline/Temporaries.antt =====
-- The temporaries of the inliner against those of the lowering.
use Prim.Native.Char.{Char, code}
use Prim.Native.String.{String}
use text.Mathlib.TextLemmas.{cons-append, nil-append, head-eq_of_cons-eq, tail-eq_of_cons-eq}
use rlyeh_language.Common.{ℕ, ◌≡◌, ◌≢◌, sym, ap, ◌∙◌, arith, ◌∷◌}
use rlyeh_language.Common.Decimal.{decimal}
use rlyeh_language.Mir.Inline.{inline_temp}

inline_temp-cons : (k : ℕ) → inline_temp k ≡ String.◌∷◌ "_" (String.◌∷◌ "i" (decimal k))
unfolding inline_temp
inline_temp-cons k =
    cons-append "_" "i" (decimal k)
    ∙ ap (λ s. String.◌∷◌ "_" s)
        (cons-append "i" "" (decimal k) ∙ ap (λ s. String.◌∷◌ "i" s) (nil-append (decimal k)))

i-ne-t : (s t : String) → String.◌∷◌ "_" (String.◌∷◌ "i" s) ≢ String.◌∷◌ "_" (String.◌∷◌ "t" t)
i-ne-t s t e =
    let c : ◌≡◌ {A = Char} "i" "t" = head-eq_of_cons-eq (tail-eq_of_cons-eq e) in
    let n : ◌≡◌ {A = ℕ} 105 116 = ap code c in absurd (omega arith)

-- A name that begins as the temporaries of the lowering do is none of the inliner's.
pub inline_temp-ne : (k : ℕ) (t : String) → String.◌∷◌ "_" (String.◌∷◌ "t" t) ≢ inline_temp k
inline_temp-ne k t e = i-ne-t (decimal k) t (sym (inline_temp-cons k) ∙ sym e)
