-- ===== src/Store/Forks.antt =====
-- What a fork of a version takes along (`insertVersionFromPromptsTx`), and the fork at the end of a
-- training session (`Complete`).
use open_bbc.Base.{
  String, ◌≡◌, ◌≢◌, refl, sym, ap, ◌∙◌, Bool, true, false, Option, none, some, List, [], ◌∷◌, ◌++◌,
  map, keep, ◌==◌, eq_iff, arith,
}
use open_bbc.Llm.{Bytes}
use open_bbc.Chat.Env.{SubAgentBinding}
use open_bbc.Store.{
  AgentStatus, ready, done, VersionRow, TrainingRow, Db, StoreError, Result, ok, err, ◌>>=◌, ◌>>◌,
  or_err, check, version_of, training_of,
}
use open_bbc.Store.Rows.{first, mem-first, first-update_where}
use open_bbc.Store.Versions.{insert_version_from_prompts}
use open_bbc.Store.Bindings.{bindings_of}
use open_bbc.Store.Trainings.{CompleteSummary, complete_training, is_running}
use open_bbc.Store.Effects.OfVersions.{insert_version-ok}

-- The binding as the new version's.
abbrev pub rebound : String → SubAgentBinding → SubAgentBinding
rebound id b = record b { caller_version_id = id }

keep-append :
    (p : SubAgentBinding → Bool) (xs ys : List SubAgentBinding)
    → keep p (xs ++ ys) ≡ keep p xs ++ keep p ys
keep-append p [] ys = refl
keep-append p (x ∷ xs) ys = ground (arith, keep-append p xs ys)

keep-rebound :
    (id : String) (xs : List SubAgentBinding)
    → keep (λ b. b.caller_version_id == id) (map (rebound id) xs) ≡ map (rebound id) xs
keep-rebound id [] = refl
keep-rebound id (x ∷ xs) =
    rw ((eq_iff id id).1 refl) (ap (λ r. rebound id x ∷ r) (keep-rebound id xs))

keep-other :
    (id other : String) (xs : List SubAgentBinding)
    → other ≢ id
    → keep (λ b. b.caller_version_id == other) (map (rebound id) xs) ≡ []
keep-other id other [] far = refl
keep-other id other (x ∷ xs) far = ground (arith, eq_iff id other, keep-other id other xs far)

bind-ok :
    {A B : Type 0} (m : Result A) (k : A → Result B) (b : B)
    → m >>= k ≡ ok b
    → (a : A) × (m ≡ ok a) × (k a ≡ ok b)
unfolding ◌>>=◌
bind-ok (ok a) k b h = (a, refl, h)
bind-ok (err e) k b h = absurd (cc h)

or_err-ok : {A : Type 0} (e : StoreError) (o : Option A) (a : A) → or_err e o ≡ ok a → o ≡ some a
unfolding or_err
or_err-ok e none a h = absurd (cc h)
or_err-ok e (some b) a h = cc

check-ok :
    {B : Type 0} (b : Bool) (e : StoreError) (r : Result B) (x : B)
    → (check b e >> r) ≡ ok x
    → (b ≡ true) × (r ≡ ok x)
unfolding check ◌>>◌
check-ok true e r x h = (refl, h)
check-ok false e r x h = absurd (cc h)

ok-injective : {A : Type 0} {a b : A} → ◌≡◌ {A = Result A} (ok a) (ok b) → a ≡ b
ok-injective {a = a} h = ap (λ r. value a r) h
  where
    value : {A : Type 0} → A → Result A → A
    value d (ok a) = a
    value d (err e) = d

abbrev pub forked_row : (new_id parent_id : String) → Bytes → AgentStatus → VersionRow → VersionRow
forked_row new_id parent_id prompts status parent = record {
  id = new_id;
  agent_id = parent.agent_id;
  parent_version_id = some parent_id;
  status = status;
  prompts = prompts;
  flow_map_config = [];
  flow_map_parse_error = "";
  agent_tool_enabled = parent.agent_tool_enabled;
}

first-here :
    (v : VersionRow) (rows : List VersionRow) (id : String)
    → v.id ≡ id
    → first (λ (w : VersionRow). w.id == id) (v ∷ rows) ≡ some v
first-here v rows id e = rw ((eq_iff v.id id).1 e) refl

-- What the transaction answers and leaves when it succeeds.
fork-ok :
    (db next : Db) (new_id parent_id given : String) (prompts : Bytes) (status : AgentStatus)
    → insert_version_from_prompts new_id parent_id prompts status db ≡ ok (given, next)
    → (parent : VersionRow) × (version_of db parent_id ≡ some parent)
      × (given ≡ new_id)
      × (next.versions ≡ forked_row new_id parent_id prompts status parent ∷ db.versions)
      × (next.bindings ≡ map (rebound new_id) (bindings_of db parent_id) ++ db.bindings)
      × (next.trainings ≡ db.trainings)
unfolding insert_version_from_prompts ◌>>=◌ or_err bindings_of
fork-ok db next new_id parent_id given prompts status h =
    let (parent, e, h1) = bind-ok _ _ (given, next) h in
    let (n, made, h2) = bind-ok _ _ (given, next) h1 in
    let (free, added) = insert_version-ok _ db n made in
    let same = ok-injective h2 in
    (
      parent,
      or_err-ok _ _ parent e,
      sym (ap (λ r. r.0) same),
      sym (ap (λ r. r.1.versions) same) ∙ ap (λ d. d.versions) added,
      sym (ap (λ r. r.1.bindings) same),
      sym (ap (λ r. r.1.trainings) same) ∙ ap (λ d. d.trainings) added,
    )

-- A fork that succeeds adds a version of the same agent, with the prompts and the status that were
-- asked for, the parent's agent-tool flag and the parent's bindings under its own id, in front of
-- those that named its id before; the bindings of every other version are as they were.
pub fork-copies :
    (db next : Db) (new_id parent_id given : String) (prompts : Bytes) (status : AgentStatus)
    → insert_version_from_prompts new_id parent_id prompts status db ≡ ok (given, next)
    → (parent : VersionRow) × (version_of db parent_id ≡ some parent)
      × (version_of next given ≡ some (forked_row new_id parent_id prompts status parent))
      × (bindings_of next given
          ≡ map (rebound given) (bindings_of db parent_id) ++ bindings_of db given)
      × ((other : String) → other ≢ given → bindings_of next other ≡ bindings_of db other)
unfolding bindings_of
fork-copies db next new_id parent_id given prompts status h =
    let (parent, e, same, vs, bs, _) = fork-ok db next new_id parent_id given prompts status h in
    let copies = map (rebound new_id) (bindings_of db parent_id) in
    let kept = λ (id : String). keep-append (λ b. b.caller_version_id == id) copies db.bindings in
    (
      parent,
      e,
      ap (λ r. first (λ (w : VersionRow). w.id == given) r) vs
          ∙ first-here _ db.versions given (sym same),
      rw (bs, same) (kept new_id ∙ ap (λ r. r ++ bindings_of db new_id) (keep-rebound new_id _)),
      λ other far. rw bs (
          kept other
          ∙ ap (λ r. r ++ bindings_of db other)
              (keep-other new_id other _ (λ k. far (k ∙ sym same)))),
    )

-- The session's row after `Complete`.
abbrev ended : String → Bytes → CompleteSummary → TrainingRow → TrainingRow
ended new_id report summary t = record t {
  status = done;
  new_version_id = some new_id;
  initial_score = some summary.initial_score;
  final_score = some summary.final_score;
  total_epochs_run = some summary.total_epochs_run;
  stopped_reason = some summary.stopped_reason;
  training_report = report;
}

-- When `Complete` succeeds, the session was IN_PROGRESS and is DONE with the answered version as its
-- new version, and that version is there: READY, with the submitted prompts, of the same agent as
-- the session's parent version.
pub complete_training-forks :
    (db next : Db) (new_id id given : String) (prompts report : Bytes) (summary : CompleteSummary)
    → complete_training new_id id prompts report summary db ≡ ok (given, next)
    → (t u : TrainingRow) × (parent v : VersionRow) × (training_of db id ≡ some t)
      × (is_running t.status ≡ true)
      × (training_of next id ≡ some u)
      × (u.status ≡ done)
      × (u.new_version_id ≡ some given)
      × (version_of db t.parent_version_id ≡ some parent)
      × (version_of next given ≡ some v)
      × (v.status ≡ ready)
      × (v.prompts ≡ prompts)
      × (v.agent_id ≡ parent.agent_id)
unfolding complete_training
complete_training-forks db next new_id id given prompts report summary h =
    let (t, e1, h1) = bind-ok _ _ (given, next) h in
    let (running, h2) = check-ok _ _ _ (given, next) h1 in
    let (forked, made, h3) = bind-ok _ _ (given, next) h2 in
    let found = or_err-ok _ _ t e1 in
    let (parent, e, same, vs, _, ts) =
      fork-ok db forked.1 new_id t.parent_version_id forked.0 prompts ready made in
    let answer = ok-injective h3 in
    let row = forked_row new_id t.parent_version_id prompts ready parent in
    let final = ended new_id report summary in
    let (_, named) = mem-first (λ (r : TrainingRow). r.id == id) db.trainings t found in
    let given_id : new_id ≡ given = ap (λ r. r.0) answer in
    (
      t,
      final t,
      parent,
      row,
      found,
      running,
      ap (λ r. training_of r.1 id) (sym answer)
          ∙ rw ts (
              first-update_where (λ (r : TrainingRow). r.id == id) (λ r. r.id == id) final
                db.trainings (λ r. refl) t found
              ∙ rw named refl),
      refl,
      ap some given_id,
      e,
      ap (λ r. version_of r.1 given) (sym answer)
          ∙ ap (λ r. first (λ (w : VersionRow). w.id == given) r) vs
          ∙ first-here row db.versions given given_id,
      refl,
      refl,
      refl,
    )
