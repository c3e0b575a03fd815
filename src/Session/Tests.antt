-- ===== src/Session/Tests.antt =====
-- Two messages of a session, its merge and its end, with services that keep what they are given.
use open_cortex.Base.{
  ℕ, suc, ◌≡◌, refl, String, none, some, [], ◌∷◌, ◌++◌, pair_eq, string_eq, arith,
}
use open_cortex.Base.Dict
use open_cortex.Base.Plain.{plain}
use open_cortex.Base.Json.{str, null, Meta}
use open_cortex.Buffer.{
  SessionBuffer, SessionBufferSnapshot, init, append, active, chunks, stale_keys,
}
use open_cortex.Buffer.Flow.{IsKeyValid, held_messages, held_uris}
use open_cortex.Buffer.Runs.{Trace, started, appending, run_delivers}
use open_cortex.Worker.Failure.{Result, ok}
use open_cortex.Worker.Events.{IdentityProfile}
use open_cortex.Records.{PrimaryRecordInput, StoredRecord}
use open_cortex.Session.Defs.{
  SessionKey, profile_key, SessionMessageInput, SessionMessageResult, SessionEndResult, Services,
  Setup, State,
}
use open_cortex.Session.Immediate.{message}
use open_cortex.Session.Merge.{merge_unmerged}
use open_cortex.Session.Finish.{merge_pending, end}
use open_cortex.Session.Rules.{Post}
use open_cortex.Session.Turns.{Stored, Stopped, message-Stored}
use open_cortex.Session.Draining.{At, Announces, Done, Still, merged_sources, merge_unmerged-At}
use open_cortex.Session.Looping.{Merged, Lost, merge_pending-Merged}
use open_cortex.Session.Ending.{TreeKeeps, Ended, Broken, end-Ended}

abbrev alice : IdentityProfile
alice = record {
  tenant_id = "acme";
  user_id = "alice";
  project_id = "demo";
  session_id = "s1";
  collection = "main";
}

abbrev key : SessionKey
key = profile_key "main" alice

-- Ids that count up, and a vector for every text.
abbrev setup : Setup
setup = record {
  py = plain;
  immediate_ttl = "tomorrow";
  merged_ttl = "next week";
  effective_project = "demo";
  uuid = λ n. "id";
}

-- Every write is stored and counted.
abbrev keep : PrimaryRecordInput String → ℕ → Result StoredRecord × ℕ
keep i n = (
  ok (record {
    uri = i.ctx.uri;
    context_type = "memory";
    category = i.effective_category;
    abstract = i.content;
    overview = "";
    meta = i.meta;
    record_data = ("id", str i.ctx.uri) ∷ ("uri", str i.ctx.uri) ∷ ("content", str i.content) ∷ [];
  }),
  suc n,
)

abbrev services : Services String ℕ
services = record {
  write = keep;
  embed = λ ctx n. (ok (some ctx.abstract, null), n);
  load_merged = λ session n. (ok [], n);
  tree = none;
}

abbrev turn : SessionMessageInput
turn = record {
  session_id = "s1";
  turn_id = "t1";
  messages =
      record { role = "user"; content = "hello"; meta = [] }
      ∷ record { role = "assistant"; content = "hi"; meta = [] }
      ∷ [];
  tool_calls = [];
}

abbrev fresh : SessionBuffer SessionKey Meta
fresh = init 100 1000000

abbrev two : SessionBuffer SessionKey Meta
two = append key "hi" "u2" none (append key "hello" "u1" none fresh)

abbrev state : SessionBuffer SessionKey Meta → State ℕ
state b = record { buffer = b; world = 0; published = some []; draws = 0 }

two_run : Trace key 100 1000000 ("hello" ∷ "hi" ∷ []) [] two
two_run = appending "hi" "u2" none (appending "hello" "u1" none started)

two-IsKeyValid : IsKeyValid key two
two-IsKeyValid = (run_delivers key 100 1000000 two_run).0

none-Announces : Announces [] (some [])
unfolding merged_sources
none-Announces = record { events = []; taken = refl; sources = refl }

abbrev held_chunk : SessionBufferSnapshot Meta
held_chunk = record {
  messages = "hello" ∷ "hi" ∷ [];
  immediate_uris = "u1" ∷ "u2" ∷ [];
  tool_calls_per_turn = [];
  start_msg_index = 0;
  token_count = 2;
}

abbrev waiting : SessionBuffer SessionKey Meta
waiting = record fresh { pending_merges = (key, held_chunk ∷ []) ∷ [] }

waiting-chunks : chunks key waiting ≡ held_chunk ∷ []
unfolding chunks init Dict.get profile_key
waiting-chunks = refl

waiting-At : At key (active key waiting) (held_chunk ∷ []) [] (state waiting)
waiting-At = record { active_is = refl; chunks_are = waiting-chunks; announces = none-Announces }

merge_unmerged-At_example :
    Post
      (Done setup services alice key (active key waiting) held_chunk [] [] (some []))
      (Still setup services alice key (active key waiting) [] [] (some []))
      (merge_unmerged setup services key alice (state waiting))
merge_unmerged-At_example =
    merge_unmerged-At setup services alice key (active key waiting) held_chunk [] [] (state waiting)
      waiting-At

merge_pending-Merged_example :
    Post
      (Merged setup services alice key (active key waiting) (held_chunk ∷ []) [])
      (Lost setup services alice key (active key waiting) (held_chunk ∷ []) [])
      (merge_pending setup services 1 key alice (state waiting))
merge_pending-Merged_example =
    merge_pending-Merged setup services alice key (active key waiting) 1 (held_chunk ∷ []) []
      (state waiting) (omega arith) waiting-At

no_tree : TreeKeeps services
no_tree tree i w published us e a = ground (arith, e)

end-Ended_example :
    Post
      (λ (r : SessionEndResult) t. Ended setup services alice key ([] ++ held_uris key two) t)
      (Broken setup services alice key [] (held_uris key two))
      (end setup services "main" 5 alice (state two))
unfolding stale_keys append init
end-Ended_example =
    end-Ended setup services "main" 5 alice [] (state two) no_tree two-IsKeyValid refl
      none-Announces

message-Stored_example :
    Post
      (λ (r : SessionMessageResult) t.
        Stored setup services key turn alice turn.messages
          (held_messages key two)
          (held_uris key two)
          (r.written_uris, r.merge_requested)
          t)
      (Stopped setup services key turn alice turn.messages
        (held_messages key two)
        (held_uris key two))
      (message setup services "main" 5 alice turn (state two))
unfolding stale_keys append init
message-Stored_example =
    message-Stored setup services "main" 5 alice turn (state two) two-IsKeyValid refl
