-- ===== src/Worker/Welcome/Sent.antt =====
-- What a sync of the welcome message makes of the Discord side.
use discord_support_hub.Prelude.{
  String, Option, none, some, ◌≡◌, ◌≢◌, ◌⊎◌, inl, inr, refl, sym, ap, ◌∙◌, arith, subst,
}
use discord_support_hub.Store.Db.{ok, Reply-cases}
use discord_support_hub.Discord.Guild.{GuildApi, send_message, edit_message, pin_message}
use discord_support_hub.Effects.{Env, call, continue}
use discord_support_hub.Worker.Welcome.{send_and_pin, sync_message}

module _ {D : Type 0} (api : GuildApi D) (channel content : String) where
  -- The message was sent and pinned.
  abbrev pub IsSent : String → D → D → Type 0
  IsSent m before after =
      ((send_message api channel content before).0 ≡ ok m)
      × ((pin_message api channel m (send_message api channel content before).1).0 ≡ ok tt)
      × (after ≡ (pin_message api channel m (send_message api channel content before).1).1)

  -- The recorded message was edited and no other was sent; or, where there is none or it cannot be
  -- edited, one was sent and pinned.
  abbrev pub IsPinned : Option String → String → D → D → Type 0
  IsPinned recorded m before after =
      ((recorded ≡ some m)
        × ((edit_message api channel m content before).0 ≡ ok tt)
        × (after ≡ (edit_message api channel m content before).1))
      ⊎ ((recorded ≡ none) × IsSent m before after)
      ⊎ ((old : String) × (recorded ≡ some old)
          × ((edit_message api channel old content before).0 ≢ ok tt)
          × IsSent m (edit_message api channel old content before).1 after)

ok_injective : {A : Type 0} (a b : A) → ok a ≡ ok b → a ≡ b
ok_injective a b same = ground (arith, same)

module _ {D L : Type 0} (api : GuildApi D) where
  -- Only the Discord side is another.
  abbrev pub IsMoved : Env D L → Env D L → Type 0
  IsMoved before after = after ≡ record before { discord = after.discord }

  then_pinned :
      (c content m n : String) (e : Env D L)
      → (send_message api c content e.discord).0 ≡ ok n
      → let posted : Env D L = record e { discord = (send_message api c content e.discord).1 } in
        let end = continue (call (pin_message api c n) posted) (λ done s. (ok n, s)) in
        end.0 ≡ ok m → IsSent api c content m e.discord end.1.discord × IsMoved e end.1
  unfolding call
  then_pinned c content m n e was_sent h =
      let after = (send_message api c content e.discord).1 in
      elim (Reply-cases (pin_message api c n after).0) [
        | inr (x, failed) ↦ ground (arith, h, failed)
        | inl (done, fine) ↦ ground (arith, h, fine, was_sent)
      ]

  sent :
      (c content m : String) (e : Env D L)
      → (send_and_pin api c content e).0 ≡ ok m
      → IsSent api c content m e.discord (send_and_pin api c content e).1.discord
        × IsMoved e (send_and_pin api c content e).1
  unfolding send_and_pin call
  sent c content m e h = elim (Reply-cases (send_message api c content e.discord).0) [
    | inr (x, failed) ↦ ground (arith, h, failed)
    | inl (n, was_sent) ↦
        let whole : send_and_pin api c content e
            ≡ continue
                (call (pin_message api c n)
                  (record e { discord = (send_message api c content e.discord).1 }))
                (λ done s. (ok n, s)) =
          simp was_sent refl in
        subst (λ q. IsSent api c content m e.discord q.1.discord × IsMoved e q.1) (sym whole)
          (then_pinned c content m n e was_sent (ap (λ q. q.0) (sym whole) ∙ h))
  ]

  pub pinned :
      (c content m : String) (w : Option String) (e : Env D L)
      → (sync_message api c content w e).0 ≡ ok m
      → IsPinned api c content w m e.discord (sync_message api c content w e).1.discord
        × IsMoved e (sync_message api c content w e).1
  unfolding sync_message call
  pinned c content m none e h =
      let (done, moved) = sent c content m e h in (inr (inl (refl, done)), moved)
  pinned c content m (some old) e h =
      let edited = call (edit_message api c old content) e in
      elim (Reply-cases (edit_message api c old content e.discord).0) [
        | inl (done, fine) ↦
            let whole : sync_message api c content (some old) e ≡ (ok old, edited.1) =
              simp fine refl in
            let same : old ≡ m = ok_injective old m (ap (λ q. q.0) (sym whole) ∙ h) in
            subst (λ q. IsPinned api c content (some old) m e.discord q.1.discord × IsMoved e q.1)
              (sym whole)
              (
                subst (λ k. IsPinned api c content (some old) k e.discord edited.1.discord) same
                    (inl (refl, fine, refl)),
                refl,
              )
        | inr (x, failed) ↦
            let whole : sync_message api c content (some old) e
                ≡ send_and_pin api c content edited.1 =
              simp failed refl in
            let (done, moved) = sent c content m edited.1 (ap (λ q. q.0) (sym whole) ∙ h) in
            subst (λ q. IsPinned api c content (some old) m e.discord q.1.discord × IsMoved e q.1)
              (sym whole) (inr (inr (old, refl, (λ fine. cc), done)), moved)
      ]
