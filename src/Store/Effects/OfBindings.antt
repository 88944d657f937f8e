-- ===== src/Store/Effects/OfBindings.antt =====
-- The effects of the transactions of Store/Bindings.
use mathlib.Core.List.{Memᴰ}
use open_bbc.Base.{
  String, ◌≡◌, refl, ap, ◌∙◌, Bool, true, false, ◌&&◌, List, [], ◌∷◌, ◌==◌, arith, if◌then◌else◌,
  some,
}
use open_bbc.Chat.Env.{SubAgentBinding, Codec}
use open_bbc.Store.{Db, VersionRow, ok, ◌>>=◌, ◌>>◌, or_err, check, version_of}
use open_bbc.Store.Rows.{mem-keep, mem-update_where}
use open_bbc.Store.Rules.{Leaves, committed, passed, bound, found, checked}
use open_bbc.Store.Bindings.{
  has_active, is_editable, check_caller_writable, begin_caller_write, set_agent_tool_enabled,
  add_binding, set_notes, update_notes, delete_binding,
}
use open_bbc.Store.Effects.{Effect, toggles, binds, rebinds}
use open_bbc.Store.Effects.OfVersions.{quiet_refl}

-- The caller's row, which is editable and has no active run.
pub begin_caller_write-ok :
    (db : Db) (caller : String) (v : VersionRow)
    → begin_caller_write db caller ≡ ok v
    → (version_of db caller ≡ some v)
      × (is_editable v.status ≡ true)
      × (has_active db caller ≡ false)
unfolding begin_caller_write check_caller_writable ◌>>=◌ ◌>>◌ or_err check
begin_caller_write-ok db caller v h = ground arith

pub set_agent_tool_enabled-Effect :
    (codec : Codec) (sanitize : String → String) (caller : String) (enabled : Bool) (db : Db)
    → Leaves (Effect db) db (set_agent_tool_enabled codec sanitize caller enabled db)
unfolding set_agent_tool_enabled
set_agent_tool_enabled-Effect codec sanitize caller enabled db = bound (quiet_refl db) _ _ (λ v e.
    let (_, _, idle) = begin_caller_write-ok db caller v e in
    passed (quiet_refl db) _ _
      (committed (quiet_refl db) _ (toggles caller enabled idle refl refl refl)))

pub add_binding-Effect :
    (codec : Codec) (sanitize : String → String) (caller name target note : String) (db : Db)
    → Leaves (Effect db) db (add_binding codec sanitize caller name target note db)
unfolding add_binding
add_binding-Effect codec sanitize caller name target note db =
    let q = quiet_refl db in
    checked q _ _ _ (λ _. checked q _ _ _ (λ _. checked q _ _ _ (λ _. found q _ _ _ (λ t te.
      bound q _ _ (λ v we.
        let (ve, editable, _) = begin_caller_write-ok db caller v we in
        passed q _ _ (
          checked q _ _ _ (λ runnable. checked q _ _ _ (λ _.
            checked q _ _ _
              (λ _. committed q _ (binds _ v t ve editable te runnable refl refl refl))))))))))

kept_caller :
    (b : Bool) (note : String) (a : SubAgentBinding)
    → (if b then (record a { note = note }) else a).caller_version_id ≡ a.caller_version_id
kept_caller b note a = ground arith

kept_target :
    (b : Bool) (note : String) (a : SubAgentBinding)
    → (if b then (record a { note = note }) else a).target_version_id ≡ a.target_version_id
kept_target b note a = ground arith

edges-set_notes :
    (caller : String) (notes : List (String × String)) (rows : List SubAgentBinding)
    (b : SubAgentBinding)
    → Memᴰ b (set_notes caller notes rows)
    → (a : SubAgentBinding) × Memᴰ a rows
      × (b.caller_version_id ≡ a.caller_version_id)
      × (b.target_version_id ≡ a.target_version_id)
unfolding set_notes
edges-set_notes caller [] rows b m = (b, m, refl, refl)
edges-set_notes caller (entry ∷ notes) rows b m =
    let (c, n, k, l) = edges-set_notes caller notes _ b m in
    let named = λ (r : SubAgentBinding). r.caller_version_id == caller && r.name == entry.0 in
    let (a, i, e) = mem-update_where named (λ r. record r { note = entry.1 }) rows c n in
    (
      a,
      i,
      k ∙ ap (λ d. d.caller_version_id) e ∙ kept_caller (named a) entry.1 a,
      l ∙ ap (λ d. d.target_version_id) e ∙ kept_target (named a) entry.1 a,
    )

pub update_notes-Effect :
    (caller : String) (notes : List (String × String)) (db : Db)
    → Leaves (Effect db) db (update_notes caller notes db)
unfolding update_notes
update_notes-Effect caller notes db =
    let q = quiet_refl db in
    bound q _ _
      (λ _ _. committed q _ (rebinds (edges-set_notes caller notes db.bindings) refl refl))

pub delete_binding-Effect :
    (caller name : String) (db : Db) → Leaves (Effect db) db (delete_binding caller name db)
unfolding delete_binding
delete_binding-Effect caller name db =
    let q = quiet_refl db in
    bound q _ _ (λ _ _.
      checked q _ _ _
        (λ _. committed q _ (rebinds (λ b m. (b, (mem-keep _ _ b m).0, refl, refl)) refl refl)))
