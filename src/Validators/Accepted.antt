-- ===== src/Validators/Accepted.antt =====
-- What the default validators of server/mcp/validators let into the queue of shared/input.go.
use gate4ai.Prelude.{
  ℕ, ◌≤◌, ◌<◌, ◌≡◌, inl, inr, refl, sym, ap, ◌∙◌, Bool, true, false, Option, none, some, List, [],
  ◌∷◌, String, arith, ltb, leb, if◌then◌else◌, Bool-cases, Option-cases, length, All, All-append,
  pos,
}
use mathlib.Core.Path.{subst}
use gate4ai.Input.{Input, put, validate, Validator, offer_input}
use gate4ai.Jsonrpc.{GoError, Message, id_string, is_empty}
use gate4ai.Session.{Session, update_last_activity}
use gate4ai.Validators.{
  method_validator, params_fit, method_of, size_validator, Throttled, check_size, check_method,
  create_default_validators, valid_methods, listed, method_of, params_fit, throttling_validator,
  size_validator, method_validator,
}

chosen_true :
    {A : Type 0} (b : Bool) (e : A)
    → ◌≡◌ {A = Option A} (if b then none else some e) none
    → b ≡ true
chosen_true true e h = refl
chosen_true false e h = cc

validate-head :
    {W : Type 0} (v : Validator W) (vs : List (Validator W)) (m : Message) (w : W)
    → (validate (v ∷ vs) m w).0 ≡ none
    → ((v m w).0 ≡ none) × ((validate vs m (v m w).1).0 ≡ none)
unfolding validate
validate-head v vs m w h = ground arith

module _ (byte_length : String → ℕ) where
  abbrev Fits : Option String → Type 0
  Fits none = Unit
  Fits (some raw) = byte_length raw ≤ 102400

  abbrev IsKnown : Option String → Message → Type 0
  IsKnown none m = is_empty m.id ≡ false
  IsKnown (some method) m = listed valid_methods method ≡ true

  -- The identifier is shorter than 256 bytes, the parameters have at most 102400, and the method is
  -- on the list; without a method there is an identifier.
  abbrev pub IsAcceptable : Message → Type 0
  IsAcceptable m = (byte_length (id_string m.id) < 256) × Fits m.params × IsKnown m.method m

  params-Fits : (o : Option String) → params_fit byte_length 102400 o ≡ none → Fits o
  unfolding params_fit
  params-Fits none h = tt
  params-Fits (some raw) h = ground arith

  size-Fits :
      (m : Message)
      → check_size byte_length 102400 m ≡ none
      → (byte_length (id_string m.id) < 256) × Fits m.params
  unfolding check_size
  size-Fits m h = elim (Bool-cases (leb 256 (byte_length (id_string m.id)))) [
    | inl e ↦ absurd (ground (arith, h, e))
    | inr e ↦ (ground (arith, e), params-Fits m.params (ground (arith, h, e)))
  ]

  method-IsKnown :
      (o : Option String) (m : Message) → method_of o (is_empty m.id) ≡ none → IsKnown o m
  unfolding method_of
  method-IsKnown none m h = ground arith
  method-IsKnown (some method) m h = chosen_true (listed valid_methods method) _ h

  module _ {L : Type 0} (new_limiter : ℕ → ℕ → ℕ → L) (allow : L → Bool × L) where
    validated-IsAcceptable :
        (m : Message) (w : Throttled L)
        → (validate (create_default_validators byte_length new_limiter allow) m w).0 ≡ none
        → IsAcceptable m
    unfolding create_default_validators size_validator method_validator check_method
    validated-IsAcceptable m w h =
        let rated =
          validate-head (throttling_validator new_limiter allow (pos 60) (pos 600)) _ m w h in
        let sized = validate-head (size_validator byte_length 102400) _ m _ rated.1 in
        let known = validate-head method_validator [] m _ sized.1 in
        let fits = size-Fits m sized.0 in (fits.0, fits.1, method-IsKnown m.method m known.0)

    -- What waits in the queue of a processor.
    abbrev pub AllAcceptable : Option (List Message) → Type 0
    AllAcceptable none = Unit
    AllAcceptable (some q) = All IsAcceptable q

    module _ (i : Input (Throttled L))
        (validators : i.validators ≡ create_default_validators byte_length new_limiter allow) where
      offered-AllAcceptable :
          (o : Option (List Message)) (m : Message) (s : Session) (w : Throttled L) (now : ℕ)
          → i.input ≡ o
          → AllAcceptable i.input
          → IsAcceptable m
          → AllAcceptable (offer_input o i m s w now).0.input
      unfolding offer_input
      offered-AllAcceptable none m s w now e h a = h
      offered-AllAcceptable (some q) m s w now e h a = elim (Bool-cases (ltb (length q) 100)) [
        | inl r ↦ rw r (All-append IsAcceptable q (m ∷ []) (subst AllAcceptable e h) (a, tt))
        | inr r ↦ rw r h
      ]

      put_validated :
          (m : Message) (s : Session) (w : Throttled L) (now : ℕ)
          → (validate i.validators m w).0 ≡ none
          → put i m s w now
            ≡ offer_input i.input i m (update_last_activity s now) (validate i.validators m w).1 now
      unfolding put
      put_validated m s w now e = ground (arith, e)

      put_invalid :
          (m : Message) (s : Session) (w : Throttled L) (now : ℕ) (x : GoError)
          → (validate i.validators m w).0 ≡ some x
          → (put i m s w now).0 ≡ i
      unfolding put
      put_invalid m s w now x e = ground (arith, e)

      -- With the default validators, a queue that holds acceptable messages only does so after any
      -- further message is put: identifier and parameters keep their sizes, and the method is one
      -- of the list.
      pub put-AllAcceptable :
          (m : Message) (s : Session) (w : Throttled L) (now : ℕ)
          → AllAcceptable i.input
          → AllAcceptable (put i m s w now).0.input
      put-AllAcceptable m s w now h = elim (Option-cases (validate i.validators m w).0) [
        | inl e ↦
            subst (λ r. AllAcceptable r.0.input) (sym (put_validated m s w now e))
              (offered-AllAcceptable i.input m (update_last_activity s now) _ now refl h
                (validated-IsAcceptable m w (ap (λ vs. (validate vs m w).0) (sym validators) ∙ e)))
        | inr (x, e) ↦
            subst (λ (r : Input (Throttled L)). AllAcceptable r.input)
              (sym (put_invalid m s w now x e)) h
      ]
