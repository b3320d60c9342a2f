-- ===== src/Examples/Memories.antt =====
-- The witnesses of the memory: a memory at its first revision, and a listing of two entries.
use microoperator.Base.{
  pos, false, [], ◌∷◌, text, ok, ◌≡◌, ◌≢◌, refl, arith, Text, same, length, ◌<◌, blank, ◌+ℤ◌, ◌*ℤ◌,
  has_prefix, All,
}
use microoperator.Config.Names.{unique_names}
use microoperator.Store.{
  order_by, TaskState, Control, MemoryState, TaskRow, MemoryHeadRow, MemoryRevisionRow, Db,
}
use microoperator.Knowledge.Memory.{MemoryCommand, MemoryEntry, memory_owner, put_memory}
use microoperator.Knowledge.Search.{MemoryQuery, text_lt, listing}
use microoperator.Knowledge.Locks.{put_memory-once}
use microoperator.Knowledge.Pages.{Fits, read_all, read_all-listing}
use microoperator.Knowledge.Order.{UniqueMemories}
use microoperator.Examples.{sample_db}

abbrev pub reader : TaskRow
reader = record {
  system_id = text "a";
  task_id = text "t";
  goal_id = text "o";
  agent_id = text "b";
  agent_revision = pos 1;
  parent_task = [];
  state = TaskState.running;
  control = Control.active;
  tools = [];
  conversation = [];
  turns = 1;
  call_id = text "c";
  waiting_tool = [];
  response = [];
  reason = [];
  learning_id = [];
  learning_role = [];
  deadline = pos 0;
}

abbrev head_of : Text → MemoryHeadRow
head_of id = record {
  system_id = text "a";
  memory_id = id;
  scope = text "agent";
  owner_id = text "b";
  revision = 1;
  state = MemoryState.active;
  expires_at = pos 9000;
}

abbrev revision_one : Text → MemoryRevisionRow
revision_one id = record {
  system_id = text "a";
  memory_id = id;
  revision = 1;
  content = text "x";
  evidence = [];
  confidence = pos 50;
  artifacts = [];
  author = text "b";
  goal_id = text "o";
  task_id = text "t";
  created_at = pos 0;
}

-- The later id stands first.
abbrev two_memories : Db
two_memories = record sample_db {
  memory_heads = head_of (text "n") ∷ head_of (text "m") ∷ [];
  memory_revisions = revision_one (text "n") ∷ revision_one (text "m") ∷ [];
}

abbrev change : MemoryCommand
change = record {
  id = text "m";
  expected_revision = pos 1;
  scope = text "agent";
  owner = [];
  content = text "y";
  evidence = [];
  confidence = pos 60;
  artifacts = [];
  retention_seconds = pos 5;
}

abbrev changed_entry : MemoryEntry
changed_entry = record {
  id = text "m";
  revision = 2;
  scope = text "agent";
  owner = text "b";
  state = MemoryState.active;
  content = text "y";
  evidence = [];
  confidence = pos 60;
  artifacts = [];
  author = text "b";
  goal_id = text "o";
  task_id = text "t";
  created = pos 1000;
  expires = pos 6000;
}

abbrev changed_memories : Db
changed_memories = record two_memories {
  memory_heads =
      head_of (text "n") ∷ record (head_of (text "m")) { revision = 2; expires_at = pos 6000 } ∷ [];
  memory_revisions =
      revision_one (text "n")
      ∷ revision_one (text "m")
      ∷ record (revision_one (text "m")) {
        revision = 2;
        content = text "y";
        confidence = pos 60;
        created_at = pos 1000;
      }
      ∷ [];
}

changed :
    put_memory (λ _. 100) two_memories reader change false (pos 1000) (text "f")
    ≡ ok (changed_memories, changed_entry)
unfolding put_memory memory_owner same text blank unique_names ◌+ℤ◌ ◌*ℤ◌
changed = refl

m_is_named : same (text "m") [] ≡ false
unfolding same text
m_is_named = refl

put_memory-once_example :
    put_memory (λ _. 100) changed_memories reader change false (pos 2000) (text "f")
    ≢ ok (changed_memories, changed_entry)
put_memory-once_example =
    put_memory-once (λ _. 100) two_memories reader reader change change false false (pos 1000)
      (pos 2000) (text "f") (text "f") (changed_memories, changed_entry)
      (changed_memories, changed_entry) m_is_named refl refl refl changed

abbrev all_memories : MemoryQuery
all_memories = record {
  scope = text "agent";
  owner = [];
  query = [];
  after = [];
  include_pending = false;
}

owned : memory_owner two_memories reader (text "agent") [] false ≡ ok (text "b")
unfolding memory_owner same text
owned = refl

distinct : UniqueMemories two_memories (text "a")
unfolding same text
distinct = ((refl, tt), (tt, tt))

fits : All (Fits (λ _. 100)) (listing two_memories reader all_memories (text "b") false (pos 1000))
unfolding listing same text order_by text_lt has_prefix
fits = ((omega arith, refl, refl), ((omega arith, refl, refl), tt))

two : length (listing two_memories reader all_memories (text "b") false (pos 1000)) < 3
unfolding listing same text order_by text_lt has_prefix
two = omega arith

read_all-listing_example :
    read_all (λ _. 100) two_memories reader all_memories false (pos 1000) 3 []
    ≡ ok (listing two_memories reader all_memories (text "b") false (pos 1000))
read_all-listing_example =
    read_all-listing (λ _. 100) two_memories reader all_memories (text "b") false (pos 1000) owned
      refl refl distinct fits 3 two
