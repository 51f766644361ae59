-- ===== src/Handlers/Merchants/Registered.antt =====
-- A merchant that is registered is in the table, once.
use discord_support_hub.Prelude.{
  ℕ, String, Bool, true, Option, none, some, ◌≡◌, refl, arith, ◌∙◌, ap, sym, subst, find, find-snoc,
  eq_refl, inl, inr, Bool-cases, Option-cases,
}
use discord_support_hub.Domain.{Merchant, Fields}
use discord_support_hub.Store.Db.{Db, Reply, ok, err, conflict}
use discord_support_hub.Store.Merchants.{
  CreateMerchantParams, create_merchant, new_merchant, by_external_ref,
}
use discord_support_hub.Effects.{Env, query}
use discord_support_hub.Api.Auth.{require_control_plane}
use discord_support_hub.Handlers.Merchants.{
  MerchantBody, MerchantRequest, ParsedUrl, merchant_valid, trimmed, on_registered,
  register_merchant,
}

-- The reference was free before and is the new merchant's after.
abbrev pub IsAdded : String → CreateMerchantParams → ℕ → Db → Db → Type 0
IsAdded id p now before after =
    (find (by_external_ref p.external_ref) before.merchants ≡ none)
    × (find (by_external_ref p.external_ref) after.merchants ≡ some (new_merchant id p now))

created-IsAdded :
    (id : String) (p : CreateMerchantParams) (now : ℕ) (db : Db) (m : Merchant)
    → (create_merchant id p now db).0 ≡ ok m
    → IsAdded id p now db (create_merchant id p now db).1
unfolding create_merchant
created-IsAdded id p now db m h =
    elim (Option-cases (find (by_external_ref p.external_ref) db.merchants)) [
      | inl free ↦
          let there =
            find-snoc (by_external_ref p.external_ref) db.merchants (new_merchant id p now) in
          ground (arith, h, free, there, eq_refl p.external_ref)
      | inr (x, taken) ↦ absurd (ground (arith, h, taken))
    ]

module _ {Q L : Type 0} (is_format : ℕ → Bool) (parse : String → Option ParsedUrl) where
  query-IsAdded :
      (id : String) (p : CreateMerchantParams) (e : Env Q L) (m : Merchant)
      → (query (create_merchant id p) e).0 ≡ ok m
      → IsAdded id p e.now e.db (query (create_merchant id p) e).1.db
  unfolding query
  query-IsAdded id p e m h = ground (arith, h, created-IsAdded id p e.now e.db m)

  registered_row :
      (x : Reply Merchant) (e : Env Q L) (b : Fields)
      → (on_registered is_format parse x e).0 ≡ ok (201, b)
      → (m : Merchant) × (x ≡ ok m)
  registered_row (ok m) e b h = (m, refl)
  registered_row (err x) e b h = absurd (ground (arith, h))

  registered_state : (x : Reply Merchant) (e : Env Q L) → (on_registered is_format parse x e).1 ≡ e
  registered_state (ok m) e = refl
  registered_state (err conflict) e = refl
  registered_state (err x) e = refl

  -- A registration that is answered with 201 comes from a principal with control-plane authority and
  -- carries a valid body, whose trimmed reference no merchant had, and leaves the new merchant in
  -- the table. Any database call may fail.
  pub register_merchant-IsAdded :
      (r : MerchantRequest) (e : Env Q L) (b : Fields)
      → (register_merchant is_format parse r e).0 ≡ ok (201, b)
      → (body : MerchantBody) × (require_control_plane r.principal ≡ true)
        × (r.body ≡ some body)
        × (merchant_valid is_format parse (trimmed body) ≡ true)
        × IsAdded r.ids.merchant
            (trimmed body)
            e.now
            e.db
            (register_merchant is_format parse r e).1.db
  unfolding register_merchant
  register_merchant-IsAdded r e b h = elim (Bool-cases (require_control_plane r.principal)) [
    | inr denied ↦ absurd (ground (arith, denied, h))
    | inl granted ↦ elim (Option-cases r.body) [
      | inl bad ↦ absurd (ground (arith, granted, bad, h))
      | inr (body, given) ↦ elim (Bool-cases (merchant_valid is_format parse (trimmed body))) [
        | inr wrong ↦ absurd (ground (arith, granted, given, wrong, h))
        | inl right ↦
            let made = query (create_merchant r.ids.merchant (trimmed body)) e in
            let same : register_merchant is_format parse r e
                ≡ on_registered is_format parse made.0 made.1 =
              simp (granted, given, right) refl in
            let (m, got) = registered_row made.0 made.1 b (ap (λ m. m.0) (sym same) ∙ h) in
            let kept = ap (λ m. m.1) same ∙ registered_state made.0 made.1 in
            let there = query-IsAdded r.ids.merchant (trimmed body) e m got in
            (
              body,
              granted,
              given,
              right,
              subst (λ s. IsAdded r.ids.merchant (trimmed body) e.now e.db s.db) (sym kept) there,
            )
      ]
    ]
  ]
