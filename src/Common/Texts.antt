-- ===== src/Common/Texts.antt =====
-- Texts with a fixed beginning: when two such texts differ.
use Prim.Native.String.{String, ◌++◌, count}
use mathlib.Core.Path.{◌≡◌, ◌∙◌, sym}
use mathlib.Core.Logic.{◌≢◌}
use mathlib.Core.Bool.{false}
use native.Mathlib.Omega.{arith}
use text.Mathlib.Text.{◌==◌}
use text.Mathlib.TextEquality.{eq_iff}
use text.Mathlib.TextLemmas.{append_assoc, append_inj}

pub ==-false : (s t : String) → s ≢ t → (s == t) ≡ false
==-false s t h = ground (arith, eq_iff s t)

-- Two texts whose beginnings have one length and differ.
pub append-==-false :
    (u v s t p q : String)
    → count u ≡ count v
    → (u == v) ≡ false
    → (((u ++ s) ++ p) == ((v ++ t) ++ q)) ≡ false
append-==-false u v s t p q same differ = ==-false _ _ λ h.
    let e = append_inj (sym (append_assoc u s p) ∙ h ∙ append_assoc v t q) same in
    ground (arith, eq_iff u v, e.0)
