-- ===== src/Discord/Laws.antt =====
-- The documented behaviour of the Discord calls, as hypotheses: a call that answers without an
-- error has done its work, one that answers with an error may or may not have, and no call
-- touches another channel's or another target's overwrite.
use discord_support_hub.Prelude.{String, none, some, List, All, find, ◌≡◌, ◌⊎◌}
use discord_support_hub.Store.Db.{ok}
use discord_support_hub.Discord.{DiscordApi, PermissionOverwrite, OverwriteType, Perms, of_target}

abbrev pub made : String → OverwriteType → Perms → Perms → PermissionOverwrite
made t k a d = record { id = t; kind = k; allow = a; deny = d }

pub record IsDiscord {D : Type 0} (api : DiscordApi D) : Type 0 where
  pub set_done :
      (c t : String) (k : OverwriteType) (a e : Perms) (d : D)
      → (api.channel_permission_set c t k a e d).0 ≡ ok tt
      → api.overwrite (api.channel_permission_set c t k a e d).1 c t ≡ some (made t k a e)
  pub set_each :
      (c t : String) (k : OverwriteType) (a e : Perms) (d : D) (c' t' : String)
      → let after = api.overwrite (api.channel_permission_set c t k a e d).1 c' t' in
        (after ≡ api.overwrite d c' t') ⊎ ((c' ≡ c) × (t' ≡ t) × (after ≡ some (made t k a e)))
  pub delete_done :
      (c t : String) (d : D)
      → (api.channel_permission_delete c t d).0 ≡ ok tt
      → api.overwrite (api.channel_permission_delete c t d).1 c t ≡ none
  pub delete_each :
      (c t : String) (d : D) (c' t' : String)
      → let after = api.overwrite (api.channel_permission_delete c t d).1 c' t' in
        (after ≡ api.overwrite d c' t') ⊎ ((c' ≡ c) × (t' ≡ t) × (after ≡ none))
  pub channel_reads :
      (c : String) (d : D) (os : List PermissionOverwrite)
      → (api.channel c d).0 ≡ ok os
      → (t : String) → find (of_target t) os ≡ api.overwrite d c t
  pub channel_lists :
      (c : String) (d : D) (os : List PermissionOverwrite)
      → (api.channel c d).0 ≡ ok os
      → All (λ o. api.overwrite d c o.id ≡ some o) os
  pub channel_keeps :
      (c : String) (d : D) (c' t : String)
      → api.overwrite (api.channel c d).1 c' t ≡ api.overwrite d c' t
  pub create_done :
      (g n p : String) (os : List PermissionOverwrite) (d : D) (c t : String)
      → (api.guild_channel_create_complex g n p os d).0 ≡ ok c
      → api.overwrite (api.guild_channel_create_complex g n p os d).1 c t ≡ find (of_target t) os
  pub create_each :
      (g n p : String) (os : List PermissionOverwrite) (d : D) (c t : String)
      → let after = api.overwrite (api.guild_channel_create_complex g n p os d).1 c t in
        (after ≡ api.overwrite d c t)
        ⊎ ((api.overwrite d c t ≡ none) × (after ≡ find (of_target t) os))
  pub member_add_keeps :
      (g u k : String) (d : D) (c t : String)
      → api.overwrite (api.guild_member_add g u k d).1 c t ≡ api.overwrite d c t
  pub member_delete_keeps :
      (g u : String) (d : D) (c t : String)
      → api.overwrite (api.guild_member_delete g u d).1 c t ≡ api.overwrite d c t
