-- ===== src/Governance/KillSwitch.antt =====
-- src/cranus/governance/kill_switch.py and the check of it in pep.py.
use cranus.Base.{ℕ, ◌≡◌, refl, Bool, true, false, not, Option, none, some, if◌then◌else◌}
use cranus.Storage.Models.{SystemSetting}
use cranus.Storage.Db.{Db}
use cranus.Governance.Errors.{kill_switch_engaged, Result, ok, raise, require}

-- `row.value.get("enabled", False)`
abbrev pub enabled_key : Option Bool → Bool
enabled_key none = false
enabled_key (some b) = b

abbrev pub row_enabled : Option SystemSetting → Bool → Bool
row_enabled none default = default
row_enabled (some row) default = enabled_key row.enabled

-- `enabled_default` is `kill_switch_enabled_default` of the settings.
unfoldable pub is_enabled : Bool → Db → Bool
is_enabled enabled_default db = row_enabled db.kill_switch enabled_default

unfoldable pub set_enabled : Db → Bool → ℕ → Db
set_enabled db enabled now = record db {
  kill_switch = some (record { enabled = some enabled; updated_at = now });
}

unfoldable pub enforce_kill_switch : Bool → Db → Result (Unit {0})
unfolding is_enabled
enforce_kill_switch enabled_default db =
    require (not (is_enabled enabled_default db)) kill_switch_engaged

-- What is set last decides, whatever the default and the row before.
pub set_enabled-enforce :
    (enabled_default enabled : Bool) (db : Db) (now : ℕ)
    → enforce_kill_switch enabled_default (set_enabled db enabled now)
      ≡ (if enabled then raise kill_switch_engaged else ok tt)
unfolding enforce_kill_switch set_enabled
set_enabled-enforce d true db now = refl
set_enabled-enforce d false db now = refl
