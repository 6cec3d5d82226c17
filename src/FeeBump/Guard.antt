-- ===== src/FeeBump/Guard.antt =====
-- What the guard of backend/tools/FeeBumpTool.ts against other networks asks for.
use synapse_stellar.Prelude.{
  ◌≡◌, refl, ap, ◌↔◌, ◌⊎◌, inl, inr, Bool, true, false, Option, none, some, List, [], ◌∷◌, ◌++◌,
  All, String, ◌==◌, string_eq, nat_eq, Bool-cases,
}
use synapse_stellar.Prelude.Results.{Result, ok, err, bind-ok_iff}
use synapse_stellar.FeeBump.{
  BumpSdk, BumpError, rethrown, verified, hinted, signed_by, same_network,
}

module _ (E : Type 0) (is_base64 : String → Bool) (sdk : BumpSdk E) (Submitted Net : Type 0)
    (public_key : String) (submit_transaction : sdk.Bump → Net → Result E Submitted × Net) where
  abbrev HasHint : String → sdk.Signature → Type 0
  HasHint h s = sdk.hint s == h ≡ true

  abbrev LacksHint : String → sdk.Signature → Type 0
  LacksHint h s = sdk.hint s == h ≡ false

  -- The first of the signatures that has the hint is this one.
  abbrev pub FirstWith : String → List sdk.Signature → sdk.Signature → Type 0
  FirstWith h sigs s =
      (front : List sdk.Signature) × (back : List sdk.Signature) × (sigs ≡ front ++ s ∷ back)
      × All (LacksHint h) front
      × HasHint h s

  abbrev found : String → List sdk.Signature → Option sdk.Signature
  found = hinted E is_base64 sdk Submitted Net public_key submit_transaction

  abbrev Found : String → List sdk.Signature → Option sdk.Signature → Type 0
  Found h sigs none = All (LacksHint h) sigs
  Found h sigs (some s) = FirstWith h sigs s

  hinted-Found : (h : String) (sigs : List sdk.Signature) → Found h sigs (found h sigs)
  unfolding hinted
  hinted-Found h [] = tt
  hinted-Found h (s ∷ rest) =
      let later = hinted-Found h rest in
      elim (Bool-cases (sdk.hint s == h)) [
        | inl e ↦ rw e ([], rest, refl, tt, e)
        | inr e ↦ rw e (go e (found h rest) later)
      ]
    where
      go :
          (sdk.hint s == h ≡ false)
          → (o : Option sdk.Signature) → Found h rest o
          → Found h (s ∷ rest) o
      go e none all = (e, all)
      go e (some x) (front, back, q, lacks, has) =
          (s ∷ front, back, ap (λ l. s ∷ l) q, (e, lacks), has)

  hinted_lacking :
      (h : String) (sigs : List sdk.Signature) → All (LacksHint h) sigs → found h sigs ≡ none
  unfolding hinted
  hinted_lacking h [] all = refl
  hinted_lacking h (s ∷ rest) (e, all) = rw (e, hinted_lacking h rest all) refl

  hinted_first :
      (h : String) (front back : List sdk.Signature) (s : sdk.Signature)
      → All (LacksHint h) front
      → HasHint h s
      → found h (front ++ s ∷ back) ≡ some s
  unfolding hinted
  hinted_first h [] back s all has = rw has refl
  hinted_first h (x ∷ front) back s (e, all) has = rw (e, hinted_first h front back s all has) refl

  -- What the guard asks for: there are no signatures, or the key of the source can be had, and of the
  -- signatures with its hint there is none, or the first one is a signature on the agent's network.
  abbrev pub PassesGuard : sdk.Inner → List sdk.Signature → Type 0
  PassesGuard inner sigs =
      (sigs ≡ [])
      ⊎ ((key : sdk.Key) × (sdk.from_public_key (sdk.source inner) ≡ ok key)
          × (All (LacksHint (sdk.signature_hint key)) sigs
              ⊎ ((s : sdk.Signature) × FirstWith (sdk.signature_hint key) sigs s
                  × (sdk.verify key inner s ≡ true))))

  abbrev guarded : sdk.Inner → Result (BumpError E) sdk.Inner
  guarded = same_network E is_base64 sdk Submitted Net public_key submit_transaction

  abbrev signed : sdk.Inner → List sdk.Signature → Result (BumpError E) sdk.Inner
  signed = signed_by E is_base64 sdk Submitted Net public_key submit_transaction

  abbrev seen : sdk.Key → sdk.Inner → Option sdk.Signature → Result (BumpError E) sdk.Inner
  seen = verified E is_base64 sdk Submitted Net public_key submit_transaction

  pub rethrown-ok_iff :
      {A : Type 0} (out : Result E A) (a : A)
      → (rethrown E is_base64 sdk Submitted Net public_key submit_transaction out ≡ ok a)
        ↔ (out ≡ ok a)
  rethrown-ok_iff (ok x) a = (λ h. cc, λ h. cc)
  rethrown-ok_iff (err e) a = (λ h. cc, λ h. cc)

  seen-Found :
      (h : String) (key : sdk.Key) (inner x : sdk.Inner) (sigs : List sdk.Signature)
      → (seen key inner (found h sigs) ≡ ok x) ↔ (
          (x ≡ inner)
          × (All (LacksHint h) sigs
              ⊎ ((s : sdk.Signature) × FirstWith h sigs s × (sdk.verify key inner s ≡ true))))
  seen-Found h key inner x sigs = (there (found h sigs) (hinted-Found h sigs), back)
    where
      there :
          (o : Option sdk.Signature)
          → Found h sigs o
          → seen key inner o ≡ ok x
          → (x ≡ inner)
            × (All (LacksHint h) sigs
                ⊎ ((s : sdk.Signature) × FirstWith h sigs s × (sdk.verify key inner s ≡ true)))
      there none all = λ q. (cc, inl all)
      there (some s) first = elim (Bool-cases (sdk.verify key inner s)) [
        | inl good ↦ rw good (λ q. (cc, inr (s, first, good)))
        | inr bad ↦ rw bad (λ q. cc)
      ]

      back :
          (x ≡ inner)
            × (All (LacksHint h) sigs
                ⊎ ((s : sdk.Signature) × FirstWith h sigs s × (sdk.verify key inner s ≡ true)))
          → seen key inner (found h sigs) ≡ ok x
      back (q, inl all) = rw (hinted_lacking h sigs all, q) refl
      back (q, inr (s, (front, behind, shape, all, has), good)) =
          rw (shape, hinted_first h front behind s all has, good, q) refl

  pub signed_by-PassesGuard :
      (inner x : sdk.Inner) (sigs : List sdk.Signature)
      → (signed inner sigs ≡ ok x) ↔ ((x ≡ inner) × PassesGuard inner sigs)
  signed_by-PassesGuard inner x [] = (λ h. (cc, inl refl), λ (q, _). rw q refl)
  signed_by-PassesGuard inner x (s ∷ rest) = (
    λ h.
        let (key, had, same) =
          (bind-ok_iff
              (rethrown E is_base64 sdk Submitted Net public_key submit_transaction
                (sdk.from_public_key (sdk.source inner)))
              (λ key. seen key inner (found (sdk.signature_hint key) (s ∷ rest))) x).0
            h in
        let (q, ok_here) = (seen-Found (sdk.signature_hint key) key inner x (s ∷ rest)).0 same in
        (
          q,
          inr (key, (rethrown-ok_iff (sdk.from_public_key (sdk.source inner)) key).0 had, ok_here),
        ),
    back,
  )
    where
      back : (x ≡ inner) × PassesGuard inner (s ∷ rest) → signed inner (s ∷ rest) ≡ ok x
      back (q, inl none_there) = cc
      back (q, inr (key, had, here)) =
          rw had ((seen-Found (sdk.signature_hint key) key inner x (s ∷ rest)).1 (q, here))
