-- ===== src/Payment/Path/Routes.antt =====
-- The assets and the path that backend/tools/PathPaymentTool.ts takes, described without its code.
use synapse_stellar.Prelude.{
  ◌≡◌, ◌≢◌, refl, ap, ◌↔◌, ◌⊎◌, inl, inr, true, false, ◌||◌, not, Option, none, some, List, [], ◌∷◌,
  String, ◌==◌, string_eq, eq_iff, Bool-cases, if◌then◌else◌,
}
use synapse_stellar.Prelude.Results.{Result, ok, err}
use synapse_stellar.Payment.{has_issuer}
use synapse_stellar.Payment.Path.{
  AssetInput, Hop, PathError, or_text, is_text, made, prepended, issuer_required, to_asset,
  hop_asset, map_assets,
}

-- The elements of the one list become those of the other, place by place.
abbrev pub Each : {A B : Type 0} → (A → B → Type 0) → List A → List B → Type 0
Each R [] ys = ys ≡ []
Each {B = B} R (x ∷ xs) ys = (y : B) × (more : List B) × (ys ≡ y ∷ more) × R x y × Each R xs more

module _ (Asset E : Type 0) (native : Asset)
    (new_asset : Option String → Option String → Result E Asset) where
  -- XLM is the native asset; any other has an issuer, and is what the SDK makes of both.
  abbrev pub IsAsset : AssetInput → Asset → Type 0
  IsAsset a x =
      ((a.code ≡ "XLM") × (x ≡ native))
      ⊎ ((a.code ≢ "XLM")
          × (issuer : String) × (a.issuer ≡ some issuer)
          × (issuer ≢ "")
          × (new_asset (some a.code) (some issuer) ≡ ok x))

  -- A hop of Horizon is native by its type or its code, or else an issued asset.
  abbrev pub IsHop : Hop → Asset → Type 0
  IsHop p x =
      (((p.asset_type ≡ "native") ⊎ (p.code ≡ some "XLM")) × (x ≡ native))
      ⊎ ((p.asset_type ≢ "native")
          × (p.code ≢ some "XLM")
          × (new_asset (or_text p.asset_code p.code) (or_text p.asset_issuer p.issuer) ≡ ok x))

  abbrev made_asset : AssetInput → Result (PathError E) Asset
  made_asset = to_asset Asset E native new_asset

  abbrev hop_of : Hop → Result (PathError E) Asset
  hop_of = hop_asset Asset E native new_asset

  made_iff :
      (out : Result E Asset) (x : Asset) → (made Asset E native new_asset out ≡ ok x) ↔ (out ≡ ok x)
  made_iff (ok y) x = (λ h. cc, λ h. cc)
  made_iff (err e) x = (λ h. cc, λ h. cc)

  -- The part of `to_asset` for an asset that is not XLM.
  issued_iff :
      (code : String) (issuer : Option String) (x : Asset)
      → ((if not (has_issuer issuer)
            then err issuer_required
            else made Asset E native new_asset (new_asset (some code) issuer))
          ≡ ok x)
        ↔ ((i : String) × (issuer ≡ some i) × (i ≢ "") × (new_asset (some code) (some i) ≡ ok x))
  issued_iff code none x = (λ h. cc, λ (i, bad, _, _). cc)
  issued_iff code (some i) x = elim (Bool-cases (i == "")) [
    | inl e ↦
        let blank = (eq_iff i "").0 e in rw e (λ h. cc, λ (j, same, full, _). absurd (full cc))
    | inr e ↦
        let full : i ≢ "" = (λ q. cc ((eq_iff i "").1 q)) in
        let (there, back) = made_iff (new_asset (some code) (some i)) x in
        rw e (
          λ h. (i, refl, full, there h),
          λ (j, same, _, h). let q : j ≡ i = cc in back (rw (← q) h),
        )
  ]

  pub to_asset-IsAsset : (a : AssetInput) (x : Asset) → (made_asset a ≡ ok x) ↔ IsAsset a x
  unfolding to_asset
  to_asset-IsAsset a x = elim (Bool-cases (a.code == "XLM")) [
    | inl e ↦ let xlm = (eq_iff a.code "XLM").0 e in rw e (λ h. inl (xlm, cc), of_xlm xlm)
    | inr e ↦
        let other : a.code ≢ "XLM" = (λ q. cc ((eq_iff a.code "XLM").1 q)) in
        rw e (
          λ h.
              let (i, had, full, makes) = (issued_iff a.code a.issuer x).0 h in
              inr (other, i, had, full, makes),
          of_other other,
        )
  ]
    where
      of_xlm :
          a.code ≡ "XLM" → IsAsset a x → ◌≡◌ {A = Result (PathError E) Asset} (ok native) (ok x)
      of_xlm xlm (inl (_, q)) = cc
      of_xlm xlm (inr (other, _, _, _, _)) = absurd (other xlm)

      of_other :
          a.code ≢ "XLM"
          → IsAsset a x
          → (if not (has_issuer a.issuer)
              then err issuer_required
              else made Asset E native new_asset (new_asset (some a.code) a.issuer))
            ≡ ok x
      of_other other (inl (xlm, _)) = absurd (other xlm)
      of_other other (inr (_, i, had, full, makes)) =
          (issued_iff a.code a.issuer x).1 (i, had, full, makes)

  abbrev NativeHop : Hop → Type 0
  NativeHop p = (p.asset_type ≡ "native") ⊎ (p.code ≡ some "XLM")

  is_text_iff : (o : Option String) (t : String) → (is_text o t ≡ true) ↔ (o ≡ some t)
  is_text_iff none t = (λ h. cc, λ h. cc)
  is_text_iff (some s) t = (λ h. ap some ((eq_iff s t).0 h), λ h. (eq_iff s t).1 cc)

  native_iff : (p : Hop) → ((p.asset_type == "native" || is_text p.code "XLM") ≡ true) ↔ NativeHop p
  native_iff p = elim (Bool-cases (p.asset_type == "native")) [
    | inl e ↦ rw e (λ h. inl ((eq_iff p.asset_type "native").0 e), λ h. refl)
    | inr e ↦ rw e (λ h. inr ((is_text_iff p.code "XLM").0 h), typed e)
  ]
    where
      typed : p.asset_type == "native" ≡ false → NativeHop p → is_text p.code "XLM" ≡ true
      typed e (inl q) = cc ((eq_iff p.asset_type "native").1 q)
      typed e (inr q) = (is_text_iff p.code "XLM").1 q

  pub hop_asset-IsHop : (p : Hop) (x : Asset) → (hop_of p ≡ ok x) ↔ IsHop p x
  unfolding hop_asset
  hop_asset-IsHop p x = elim (Bool-cases (p.asset_type == "native" || is_text p.code "XLM")) [
    | inl e ↦
        let is_native = (native_iff p).0 e in rw e (λ h. inl (is_native, cc), of_native is_native)
    | inr e ↦
        let other : NativeHop p → ⊥ = (λ q. cc ((native_iff p).1 q)) in
        let (there, back) =
          made_iff (new_asset (or_text p.asset_code p.code) (or_text p.asset_issuer p.issuer)) x in
        rw e (λ h. inr ((λ q. other (inl q)), (λ q. other (inr q)), there h), of_issued other)
  ]
    where
      of_native : NativeHop p → IsHop p x → ◌≡◌ {A = Result (PathError E) Asset} (ok native) (ok x)
      of_native n (inl (_, q)) = cc
      of_native (inl n) (inr (bad, _, _)) = absurd (bad n)
      of_native (inr n) (inr (_, bad, _)) = absurd (bad n)

      of_issued :
          (NativeHop p → ⊥)
          → IsHop p x
          → made Asset E native new_asset
              (new_asset (or_text p.asset_code p.code) (or_text p.asset_issuer p.issuer))
            ≡ ok x
      of_issued other (inl (n, _)) = absurd (other n)
      of_issued other (inr (_, _, h)) =
          (made_iff (new_asset (or_text p.asset_code p.code) (or_text p.asset_issuer p.issuer)) x).1
            h

  joined_iff :
      (one : Result (PathError E) Asset) (rest : Result (PathError E) (List Asset))
      (xs : List Asset)
      → (prepended Asset E native new_asset one rest ≡ ok xs)
        ↔ ((y : Asset) × (more : List Asset) × (xs ≡ y ∷ more) × (one ≡ ok y) × (rest ≡ ok more))
  joined_iff (err e) rest xs = (λ h. cc, λ (y, more, _, bad, _). cc)
  joined_iff (ok a) (err e) xs = (λ h. cc, λ (y, more, _, _, bad). cc)
  joined_iff (ok a) (ok more) xs = (λ h. (a, more, cc, refl, refl), λ (y, more', q, f, g). cc)

  pub map_assets-Each :
      {A : Type 0} (f : A → Result (PathError E) Asset) (R : A → Asset → Type 0)
      → ((a : A) (x : Asset) → (f a ≡ ok x) ↔ R a x)
      → (as' : List A) (xs : List Asset)
      → (map_assets Asset E native new_asset f as' ≡ ok xs) ↔ Each R as' xs
  unfolding map_assets
  map_assets-Each f R iff [] xs = (λ h. cc, λ h. cc)
  map_assets-Each f R iff (a ∷ as') xs =
      let (there, back) = joined_iff (f a) (map_assets Asset E native new_asset f as') xs in
      (
        λ h.
            let (y, more, q, one, rest) = there h in
            (y, more, q, (iff a y).0 one, (map_assets-Each f R iff as' more).0 rest),
        λ (y, more, q, one, rest).
            back (y, more, q, (iff a y).1 one, (map_assets-Each f R iff as' more).1 rest),
      )
