-- ===== src/Handshake/Negotiation.antt =====
-- What the choice of a version in base.go gives.
use gate4ai.Prelude.{◌≡◌, ◌⊎◌, inl, inr, refl, sym, Bool, true, false, String, ◌==◌, eq_iff, arith}
use mathlib.Core.Path.{subst}
use gate4ai.Handshake.{negotiate, is_supported}

abbrev pub IsSupported : String → Type 0
IsSupported v = (v ≡ "2025-03-26") ⊎ (v ≡ "2024-11-05")

latest_or_older :
    (v : String) (first second : Bool)
    → ("2025-03-26" == v) ≡ first
    → ("2024-11-05" == v) ≡ second
    → IsSupported v ⊎ ((first ≡ false) × (second ≡ false))
latest_or_older v true second p q = inl (inl (sym ((eq_iff "2025-03-26" v).0 p)))
latest_or_older v false true p q = inl (inr (sym ((eq_iff "2024-11-05" v).0 q)))
latest_or_older v false false p q = inr (refl, refl)

pub is_supported-cases :
    (v : String)
    → (IsSupported v × (is_supported v ≡ true)) ⊎ ((¬ IsSupported v) × (is_supported v ≡ false))
unfolding is_supported
is_supported-cases v = elim (latest_or_older v _ _ refl refl) [
  | inl (inl e) ↦ inl (inl e, rw e refl)
  | inl (inr e) ↦ inl (inr e, rw e refl)
  | inr (p, q) ↦ inr (
    λ h. elim h [
      | inl e ↦ cc (p, (eq_iff "2025-03-26" v).1 (sym e))
      | inr e ↦ cc (q, (eq_iff "2024-11-05" v).1 (sym e))
    ],
    rw (p, q) refl,
  )
]

-- The version that is negotiated is one the server supports: the requested one where it is
-- supported, and the server's latest otherwise.
pub negotiate-IsSupported :
    (v : String)
    → IsSupported (negotiate v)
      × ((IsSupported v × (negotiate v ≡ v)) ⊎ ((¬ IsSupported v) × (negotiate v ≡ "2025-03-26")))
unfolding negotiate
negotiate-IsSupported v = elim (is_supported-cases v) [
  | inl (inl e, s) ↦ rw e (inl refl, inl (inl refl, refl))
  | inl (inr e, s) ↦ rw e (inr refl, inl (inr refl, refl))
  | inr (n, s) ↦
      let e : negotiate v ≡ "2025-03-26" = ground (arith, s) in
      (subst IsSupported (sym e) (inl refl), inr (n, e))
]
