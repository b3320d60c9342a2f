-- ===== src/Knowledge/Memory.antt =====
-- memoryOwner and putMemory (state/knowledge.go). Ids from NewID and the length of an encoded command
-- are arguments.
use Prim.Native.String.{String}
use microoperator.Base.{
  ◌==◌, ◌*ℤ◌, ℕ, ◌+◌, ◌*◌, ℤ, pos, ◌+ℤ◌, lt_int, eq_int, Bool, not, ◌&&◌, ◌||◌, List, [], ◌∷◌, ◌++◌,
  Text, text, same, length, ltb, leb, if◌then◌else◌, Result, ok, err, fail_if, ◌>>=◌, ◌>>◌, Error,
  field, none, some, blank, each, find, any,
}
use microoperator.Config.Names.{unique_names}
use microoperator.Store.{
  TaskRow, AgentRow, SystemRow, ArtifactRow, MemoryState, MemoryHeadRow, MemoryRevisionRow, Db,
  memory_deleted, count_where, update_where,
}
use microoperator.Access.Env.{local_administrator}
use microoperator.Access.Read.{read_task}

pub record MemoryCommand : Type 0 where
  pub id : Text
  pub expected_revision : ℤ
  pub scope : Text
  pub owner : Text
  pub content : Text
  pub evidence : Text
  pub confidence : ℤ
  pub artifacts : List Text
  pub retention_seconds : ℤ

pub record MemoryEntry : Type 0 where
  pub id : Text
  pub revision : ℕ
  pub scope : Text
  pub owner : Text
  pub state : MemoryState
  pub content : Text
  pub evidence : Text
  pub confidence : ℤ
  pub artifacts : List Text
  pub author : Text
  pub goal_id : Text
  pub task_id : Text
  pub created : ℤ
  pub expires : ℤ

abbrev pub invalid : String → String → Error
invalid at problem = field (text at) (text problem)

or_default : Text → Text → Text
or_default owner default = if same owner [] then default else owner

-- sql.ErrNoRows becomes ErrSystemNotFound.
found_task : Db → Text → Text → Result (Unit {0})
found_task db system id = elim (read_task db system id) [
  | ok _ ↦ ok tt
  | err Error.no_rows ↦ err Error.system_not_found
  | err e ↦ err e
]

unfoldable pub owners : Db → Text → Text → ℕ
owners db system owner =
    count_where (λ (a : AgentRow). same a.system_id system && same a.agent_id owner) db.agents
    + count_where (λ (s : SystemRow). same s.system_id system && same s.operator_id owner)
        db.systems

-- memoryOwner, after the check of the identity.
unfoldable pub scoped_owner : Db → TaskRow → Text → Text → Result Text
unfolding or_default found_task owners
scoped_owner db t scope owner =
    if same scope (text "system")
    then fail_if (not (same owner [])) (invalid "owner_id" "system memory has no private owner")
      >> ok []
    else if same scope (text "agent")
    then fail_if (ltb (owners db t.system_id (or_default owner t.agent_id)) 1)
        Error.system_not_found
      >> ok (or_default owner t.agent_id)
    else if same scope (text "task")
    then found_task db t.system_id (or_default owner t.task_id) >> ok (or_default owner t.task_id)
    else err (invalid "scope" "requires task, agent or system")

unfoldable pub memory_owner : Db → TaskRow → Text → Text → Bool → Result Text
unfolding scoped_owner
memory_owner db t scope owner admin = do
  fail_if (not admin && not (same owner []))
      (invalid "owner_id" "identity is derived from the worker session")
  scoped_owner db t scope owner

unfoldable pub command_refused : MemoryCommand → Bool
command_refused c =
    blank c.content
    || (ltb 4096 (length c.content)
        || (ltb 1024 (length c.evidence)
            || (lt_int c.confidence (pos 0)
                || (lt_int (pos 100) c.confidence
                    || (lt_int c.retention_seconds (pos 1)
                        || (lt_int (pos (365 * 86400)) c.retention_seconds
                            || ltb 8 (length c.artifacts)))))))

-- An artifact that is cited: one of the task, or of any task for the administrator.
unfoldable pub check_artifact : Db → TaskRow → Bool → Text → Result (Unit {0})
check_artifact db t admin id =
    elim (find (λ (a : ArtifactRow). same a.system_id t.system_id && same a.artifact_id id)
      db.artifacts) [
        | none ↦ err Error.system_not_found
        | some a ↦ fail_if (not admin && not (same a.task_id t.task_id)) Error.system_not_found
      ]

unfoldable pub is_head : Text → Text → MemoryHeadRow → Bool
is_head system id h = same h.system_id system && same h.memory_id id

-- The row that a change expects.
unfoldable pub changes_head : TaskRow → MemoryCommand → Text → ℤ → MemoryHeadRow → Bool
unfolding is_head
changes_head t c owner now h =
    is_head t.system_id c.id h
    && (same h.scope c.scope
        && (same h.owner_id owner && (not (memory_deleted h.state) && lt_int now h.expires_at)))

-- A new id, at revision 1.
unfoldable pub new_memory : Db → TaskRow → MemoryCommand → Text → Result (Text × ℕ)
new_memory db t c fresh = do
  fail_if (not (eq_int c.expected_revision (pos 0))) Error.revision_conflict
  fail_if
      (leb 512 (count_where (λ (h : MemoryHeadRow). same h.system_id t.system_id) db.memory_heads))
      (invalid "memory" "system memory-ID capacity exhausted")
  ok (fresh, 1)

-- The next revision of a head that is there.
unfoldable pub next_revision : MemoryCommand → MemoryHeadRow → Result (Text × ℕ)
next_revision c h = do
  fail_if (not (eq_int (pos h.revision) c.expected_revision)) Error.revision_conflict
  fail_if (ltb 32 (h.revision + 1)) (invalid "memory" "revision capacity exhausted")
  ok (c.id, h.revision + 1)

unfoldable pub changed_memory : Db → TaskRow → MemoryCommand → Text → Bool → ℤ → Result (Text × ℕ)
unfolding changes_head next_revision
changed_memory db t c owner admin now = do
  fail_if (not admin && same c.scope (text "system"))
      (invalid "memory" "submit a new shared-memory proposal for review")
  elim (find (changes_head t c owner now) db.memory_heads) [
    | none ↦ err Error.system_not_found
    | some h ↦ next_revision c h
  ]

-- The checks of `putMemory`, and the id and revision that it writes.
unfoldable pub place_memory :
    (MemoryCommand → ℕ) → Db → TaskRow → MemoryCommand → Text → Bool → ℤ → Text → Result (Text × ℕ)
unfolding command_refused check_artifact new_memory changed_memory
place_memory encoded db t c owner admin now fresh = do
  fail_if (command_refused c)
      (invalid "memory" "invalid content, provenance, confidence, retention or artifact bound")
  fail_if (ltb 6144 (encoded c)) (invalid "memory" "encoded entry exceeds 6 KiB")
  unique_names c.artifacts (text "artifacts")
  each (check_artifact db t admin) c.artifacts
  if same c.id [] then new_memory db t c fresh else changed_memory db t c owner admin now

unfoldable pub entry_of : TaskRow → MemoryCommand → Text → Bool → ℤ → Text × ℕ → MemoryEntry
entry_of t c owner admin now at = record {
  id = at.0;
  revision = at.1;
  scope = c.scope;
  owner = owner;
  state =
      if admin
      then MemoryState.active
      else if same c.scope (text "system")
      then MemoryState.pending
      else MemoryState.active;
  content = c.content;
  evidence = c.evidence;
  confidence = c.confidence;
  artifacts = c.artifacts;
  author = if admin then local_administrator else t.agent_id;
  goal_id = t.goal_id;
  task_id = t.task_id;
  created = now;
  expires = now +ℤ c.retention_seconds *ℤ pos 1000;
}

-- INSERT … ON CONFLICT(system_id,memory_id) DO UPDATE
unfoldable pub upsert_head : Text → MemoryEntry → List MemoryHeadRow → List MemoryHeadRow
unfolding is_head
upsert_head system e heads =
    if any (is_head system e.id) heads
    then update_where (is_head system e.id)
        (λ (h : MemoryHeadRow). record h {
          revision = e.revision;
          state = e.state;
          expires_at = e.expires;
        })
        heads
    else heads
      ++ record {
        system_id = system;
        memory_id = e.id;
        scope = e.scope;
        owner_id = e.owner;
        revision = e.revision;
        state = e.state;
        expires_at = e.expires;
      }
        ∷ []

abbrev revision_row : Text → MemoryEntry → MemoryRevisionRow
revision_row system e = record {
  system_id = system;
  memory_id = e.id;
  revision = e.revision;
  content = e.content;
  evidence = e.evidence;
  confidence = e.confidence;
  artifacts = e.artifacts;
  author = e.author;
  goal_id = e.goal_id;
  task_id = e.task_id;
  created_at = e.created;
}

-- Both writes; a revision that is there violates the primary key.
unfoldable pub write_memory : Db → Text → MemoryEntry → Result Db
unfolding upsert_head
write_memory db system e = do
  fail_if
      (any
        (λ (r : MemoryRevisionRow).
          same r.system_id system && (same r.memory_id e.id && (r.revision == e.revision)))
        db.memory_revisions)
      (Error.fault (text "UNIQUE constraint failed: memory_revisions"))
  ok (record db {
    memory_heads = upsert_head system e db.memory_heads;
    memory_revisions = db.memory_revisions ++ revision_row system e ∷ [];
  })

-- putMemory
unfoldable pub put_memory :
    (MemoryCommand → ℕ) → Db → TaskRow → MemoryCommand → Bool → ℤ → Text → Result (Db × MemoryEntry)
unfolding memory_owner place_memory entry_of write_memory
put_memory encoded db t c admin now fresh = do
  owner ← memory_owner db t c.scope c.owner admin
  at ← place_memory encoded db t c owner admin now fresh
  let e = entry_of t c owner admin now at
  after ← write_memory db t.system_id e
  ok (after, e)
