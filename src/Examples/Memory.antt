-- ===== src/Examples/Memory.antt =====
-- A Discord that keeps its overwrites in a list, newest first; an entry with no body is a removed
-- overwrite. It can make one channel. It meets the laws of `Discord.Laws`.
use discord_support_hub.Prelude.{
  Bool, String, false, ◌==◌, ◌&&◌, Option, none, some, List, [], ◌∷◌, All, ◌≡◌, refl, subst, ◌⊎◌,
  inl, inr, arith, find, eq_iff, eq_refl, if◌then◌else◌, Bool-cases, ◌||◌, eq_of_eq_true, ap, sym,
}
use discord_support_hub.Store.Db.{Reply, ok, err, rest_error}
use discord_support_hub.Discord.{DiscordApi, PermissionOverwrite, OverwriteType, Perms, of_target}
use discord_support_hub.Discord.Laws.{IsDiscord, made}

-- The body without its target, which is the entry's.
pub record Grant : Type 0 where
  pub kind : OverwriteType
  pub allow : Perms
  pub deny : Perms

pub record Entry : Type 0 where
  pub channel : String
  pub target : String
  pub body : Option Grant

abbrev pub Memory : Type 0
Memory = List Entry

abbrev shown : String → Option Grant → Option PermissionOverwrite
shown t none = none
shown t (some g) = some (made t g.kind g.allow g.deny)

unfoldable pub stored : Memory → String → String → Option PermissionOverwrite
stored [] c t = none
stored (x ∷ d) c t = if x.channel == c && x.target == t then shown t x.body else stored d c t

without : String → List PermissionOverwrite → List PermissionOverwrite
without t [] = []
without t (o ∷ os) = let rest = without t os in if o.id == t then rest else o ∷ rest

abbrev with_body : Entry → List PermissionOverwrite → List PermissionOverwrite
with_body x os = elim x.body [ none ↦ os | some g ↦ made x.target g.kind g.allow g.deny ∷ os ]

-- The list of a channel's overwrites, each target once.
unfoldable pub listing : String → Memory → List PermissionOverwrite
unfolding without
listing c [] = []
listing c (x ∷ d) =
    if x.channel == c then with_body x (without x.target (listing c d)) else listing c d

find-without :
    (t u : String) (os : List PermissionOverwrite)
    → find (of_target u) (without t os) ≡ (if t == u then none else find (of_target u) os)
unfolding find without
find-without t u [] = ground arith
find-without t u (o ∷ os) =
    ground (arith, find-without t u os, eq_iff o.id t, eq_iff o.id u, eq_iff t u)

listing-find :
    (c : String) (d : Memory) (t : String) → find (of_target t) (listing c d) ≡ stored d c t
unfolding listing stored find
listing-find c [] t = refl
listing-find c (x ∷ d) t =
    ground (arith, find-without x.target t (listing c d), listing-find c d t, eq_iff x.target t)

All-without :
    (P : PermissionOverwrite → Type 0) (Q : PermissionOverwrite → Type 0) (t : String)
    (os : List PermissionOverwrite)
    → ((o : PermissionOverwrite) → (o.id == t) ≡ false → P o → Q o)
    → All P os
    → All Q (without t os)
unfolding without
All-without P Q t [] f h = tt
All-without P Q t (o ∷ os) f (p, h) = elim (Bool-cases (o.id == t)) [
  | inl same ↦ simp same (All-without P Q t os f h)
  | inr other ↦ simp other (f o other p, All-without P Q t os f h)
]

-- An entry of the channel itself, above entries that are all stored.
entry-All :
    (c t : String) (g : Option Grant) (f : String → Option PermissionOverwrite)
    (os : List PermissionOverwrite)
    → f t ≡ shown t g
    → All (λ o. f o.id ≡ some o) os
    → All (λ o. f o.id ≡ some o) (with_body (record { channel = c; target = t; body = g }) os)
entry-All c t none f os h all = all
entry-All c t (some g) f os h all = (h, all)

listing-All : (c : String) (d : Memory) → All (λ o. stored d c o.id ≡ some o) (listing c d)
unfolding listing stored
listing-All c [] = tt
listing-All c (x ∷ d) = elim (Bool-cases (x.channel == c)) [
  | inl here ↦ simp here (
      entry-All x.channel x.target x.body
        (λ u. if x.target == u then shown u x.body else stored d c u)
        (without x.target (listing c d)) (ground (arith, eq_refl x.target))
        (All-without (λ o. stored d c o.id ≡ some o) _ x.target (listing c d)
          (λ o other p. ground (arith, eq_iff x.target o.id, eq_iff o.id x.target))
          (listing-All c d)))
  | inr other ↦ simp other (listing-All c d)
]

abbrev put : String → String → Option Grant → Memory → Memory
put c t g d = record { channel = c; target = t; body = g } ∷ d

-- The overwrites of a channel that is made.
unfoldable pub born : String → List PermissionOverwrite → Memory → Memory
born c [] d = d
born c (o ∷ os) d =
    put c o.id (some (record { kind = o.kind; allow = o.allow; deny = o.deny })) (born c os d)

unfoldable pub is_used : String → Memory → Bool
is_used c [] = false
is_used c (x ∷ d) = x.channel == c || is_used c d

stored-none : (c t : String) (d : Memory) → is_used c d ≡ false → stored d c t ≡ none
unfolding is_used stored
stored-none c t [] h = refl
stored-none c t (x ∷ d) h = ground (arith, h, stored-none c t d)

stored-born :
    (c t : String) (os : List PermissionOverwrite) (d : Memory)
    → stored d c t ≡ none
    → stored (born c os d) c t ≡ find (of_target t) os
unfolding stored born find
stored-born c t [] d h = h
stored-born c t (o ∷ os) d h = elim (Bool-cases (o.id == t)) [
  | inl hit ↦
      simp (eq_refl c, hit)
        (ap (λ u. some (made u o.kind o.allow o.deny)) (sym (eq_of_eq_true o.id t hit)))
  | inr miss ↦ simp (eq_refl c, miss) (stored-born c t os d h)
]

stored-born_other :
    (c c' t : String) (os : List PermissionOverwrite) (d : Memory)
    → c == c' ≡ false
    → stored (born c os d) c' t ≡ stored d c' t
unfolding stored born
stored-born_other c c' t [] d h = refl
stored-born_other c c' t (o ∷ os) d h = ground (arith, h, stored-born_other c c' t os d h)

-- The one channel that can be made is c9, once. The member calls of this guild do nothing.
abbrev pub memory : DiscordApi Memory
memory = record {
  overwrite = stored;
  channel_permission_set =
      λ c t k a e d. (ok tt, put c t (some (record { kind = k; allow = a; deny = e })) d);
  channel_permission_delete = λ c t d. (ok tt, put c t none d);
  channel = λ c d. (ok (listing c d), d);
  guild_channel_create_complex = λ g n p os d.
      if is_used "c9" d then (err (rest_error 500 0), d) else (ok "c9", born "c9" os d);
  guild_member_add = λ g u k d. (ok tt, d);
  guild_member_delete = λ g u d. (ok tt, d);
}

stored-put :
    (c t : String) (g : Option Grant) (d : Memory) (c' t' : String)
    → let after = stored (put c t g d) c' t' in
      (after ≡ stored d c' t') ⊎ ((c' ≡ c) × (t' ≡ t) × (after ≡ shown t g))
unfolding stored
stored-put c t g d c' t' = ground (arith, eq_iff c c', eq_iff t t')

stored-put_self :
    (c t : String) (g : Option Grant) (d : Memory) → stored (put c t g d) c t ≡ shown t g
unfolding stored
stored-put_self c t g d = ground (arith, eq_refl c, eq_refl t)

abbrev made_c9 : List PermissionOverwrite → Memory → Reply String × Memory
made_c9 os d = if is_used "c9" d then (err (rest_error 500 0), d) else (ok "c9", born "c9" os d)

born_done :
    (os : List PermissionOverwrite) (d : Memory) (c t : String)
    → (made_c9 os d).0 ≡ ok c
    → stored (made_c9 os d).1 c t ≡ find (of_target t) os
born_done os d c t = elim (Bool-cases (is_used "c9" d)) [
  | inl used ↦ simp used (λ h. cc)
  | inr free ↦ simp free (λ h.
      subst (λ x. stored (born "c9" os d) x t ≡ find (of_target t) os) (ground (arith, h))
        (stored-born "c9" t os d (stored-none "c9" t d free)))
]

born_each :
    (os : List PermissionOverwrite) (d : Memory) (c t : String)
    → (stored (made_c9 os d).1 c t ≡ stored d c t)
      ⊎ ((stored d c t ≡ none) × (stored (made_c9 os d).1 c t ≡ find (of_target t) os))
born_each os d c t = elim (Bool-cases (is_used "c9" d)) [
  | inl used ↦ simp used (inl refl)
  | inr free ↦ simp free (elim (Bool-cases ("c9" == c)) [
    | inl here ↦
        subst
          (λ x.
            (stored (born "c9" os d) x t ≡ stored d x t)
            ⊎ ((stored d x t ≡ none) × (stored (born "c9" os d) x t ≡ find (of_target t) os)))
          (eq_of_eq_true "c9" c here)
          (inr (stored-none "c9" t d free, stored-born "c9" t os d (stored-none "c9" t d free)))
    | inr other ↦ inl (stored-born_other "c9" c t os d other)
  ])
]

pub memory_laws : IsDiscord memory
memory_laws = record {
  set_done = λ c t k a e d h. stored-put_self c t (some _) d;
  set_each = λ c t k a e d c' t'. stored-put c t (some _) d c' t';
  delete_done = λ c t d h. stored-put_self c t none d;
  delete_each = λ c t d c' t'. stored-put c t none d c' t';
  channel_reads = λ c d os h t. ground (arith, listing-find c d t);
  channel_lists =
      λ c d os h. subst (All (λ o. stored d c o.id ≡ some o)) (ground (arith, h)) (listing-All c d);
  channel_keeps = λ c d c' t. refl;
  create_done = λ g n p os d c t. born_done os d c t;
  create_each = λ g n p os d c t. born_each os d c t;
  member_add_keeps = λ g u k d c t. refl;
  member_delete_keeps = λ g u d c t. refl;
}
