-- ===== src/Worker/Nickname.antt =====
-- internal/worker/apply_nickname_suffix.go: the nickname that marks an agent, and `handle` of
-- applyNicknameSuffixHandler.
pub mod Fits
use discord_support_hub.Prelude.{
  ℕ, zero, suc, ◌-◌, String, Bool, ◌==◌, ◌||◌, Option, none, some, concat, leb, if◌then◌else◌,
}
use discord_support_hub.Domain.{User}
use discord_support_hub.Store.Db.{skip_retry, malformed}
use discord_support_hub.Store.Spaces.{get_user_by_id}
use discord_support_hub.Discord.Guild.{GuildApi, set_nickname}
use discord_support_hub.Effects.{M, Env, ◌>>=◌, return, fail, query, call}

-- Texts are valid UTF-8, so their runes are their characters.
unfoldable pub runes : String → ℕ
runes String.[] = 0
runes (String.◌∷◌ c s) = suc (runes s)

-- The first runes, all of them where there are fewer.
unfoldable pub take_runes : ℕ → String → String
take_runes zero s = ""
take_runes (suc n) String.[] = ""
take_runes (suc n) (String.◌∷◌ c s) = String.◌∷◌ c (take_runes n s)

-- strings.HasSuffix.
unfoldable pub has_suffix : String → String → Bool
has_suffix suffix String.[] = "" == suffix
has_suffix suffix (String.◌∷◌ c s) = String.◌∷◌ c s == suffix || has_suffix suffix s

abbrev pub discord_nick_max : ℕ
discord_nick_max = 32

abbrev pub spaced : String → String
spaced suffix = String.◌∷◌ " " suffix

-- What is cut to fit.
abbrev pub cut_nickname : String → String → String
cut_nickname base suffix =
    if leb discord_nick_max (runes (spaced suffix))
    then take_runes discord_nick_max suffix
    else concat (take_runes (discord_nick_max - runes (spaced suffix)) base) (spaced suffix)

unfoldable pub build_nickname : String → String → String
build_nickname display_name suffix =
    if display_name == ""
    then suffix
    else if has_suffix suffix display_name
    then display_name
    else if leb (runes (concat display_name (spaced suffix))) discord_nick_max
    then concat display_name (spaced suffix)
    else cut_nickname display_name suffix

pub record ApplyNicknameSuffixPayload : Type 0 where
  pub user_id : String
  pub guild_id : String
  pub suffix : String

abbrev pub or_empty : Option String → String
or_empty none = ""
or_empty (some s) = s

abbrev pub override : String → String → String
override given configured = if given == "" then configured else given

module _ {D L : Type 0} (api : GuildApi D) (guild suffix : String) where
  abbrev pub mark : ApplyNicknameSuffixPayload → User → Option String → M (Env D L) (Unit {0})
  mark p u none = return tt
  mark p u (some discord_id) = call (
      set_nickname api (override p.guild_id guild) discord_id
        (build_nickname (or_empty u.display_name) (override p.suffix suffix)))

  abbrev pub marked : ApplyNicknameSuffixPayload → M (Env D L) (Unit {0})
  marked p = do user ← query (get_user_by_id p.user_id); mark p user user.discord_user_id

  abbrev pub on_payload : Option ApplyNicknameSuffixPayload → M (Env D L) (Unit {0})
  on_payload none = fail (skip_retry malformed)
  on_payload (some p) = if p.user_id == "" then fail (skip_retry malformed) else marked p

  -- An empty suffix turns marking off.
  unfoldable pub handle : Option ApplyNicknameSuffixPayload → M (Env D L) (Unit {0})
  handle task = if suffix == "" then return tt else on_payload task
