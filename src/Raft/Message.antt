-- ===== src/Raft/Message.antt =====
-- sendVoteRequest, sendAppendEntries and sendMessage: the ConfigMap that carries a message.
use raft_based_mysql_cluster.Prelude.{
  ◌-◌, ℤ, pos, pos_part, ltb_ℤ, leb_ℤ, int64, ◌-ℤ◌, Str, lit, ◌&&◌, List, [], ◌∷◌, ◌++◌, none, some,
  length, get_elem?, if◌then◌else◌,
}
use raft_based_mysql_cluster.Prelude.Assoc.{Assoc, index}
use raft_based_mysql_cluster.Prelude.Decimal.{show_ℕ, show_ℤ}
use raft_based_mysql_cluster.Api.{LogEntry}
use raft_based_mysql_cluster.Kube.{ConfigMap}
use raft_based_mysql_cluster.Raft.Clock.{Time}
use raft_based_mysql_cluster.Raft.Node.{RaftManager, last_log_term}

-- The message of sendVoteRequest. The term and the log are read when the goroutine runs.
unfoldable pub vote_request_message : Str → RaftManager → Assoc Str
vote_request_message to rm =
    (lit "type", lit "vote_request")
    ∷ (lit "from", rm.node_id)
    ∷ (lit "to", to)
    ∷ (lit "term", show_ℤ rm.current_term)
    ∷ (lit "candidateId", rm.node_id)
    ∷ (lit "lastLogIndex", show_ℕ (length rm.log))
    ∷ (lit "lastLogTerm", show_ℤ (last_log_term rm.log))
    ∷ []

-- The index before the first entry that is sent to a node; a node without one counts as 0.
unfoldable pub prev_log_index : Str → RaftManager → ℤ
prev_log_index to rm = int64 (index (pos 0) rm.next_index to -ℤ pos 1)

-- The term of the entry at that index, 0 where there is none.
unfoldable pub prev_log_term : ℤ → List LogEntry → ℤ
prev_log_term i log =
    if ltb_ℤ (pos 0) i && leb_ℤ i (pos (length log))
    then elim (get_elem? log (pos_part i - 1)) [ none ↦ pos 0 | some e ↦ e.term ]
    else pos 0

-- The message of sendAppendEntries, which holds the number of the entries only.
unfoldable pub append_entries_message : Str → List LogEntry → RaftManager → Assoc Str
append_entries_message to entries rm =
    let i = prev_log_index to rm in
    (lit "type", lit "append_entries")
    ∷ (lit "from", rm.node_id)
    ∷ (lit "to", to)
    ∷ (lit "term", show_ℤ rm.current_term)
    ∷ (lit "leaderId", rm.node_id)
    ∷ (lit "prevLogIndex", show_ℤ i)
    ∷ (lit "prevLogTerm", show_ℤ (prev_log_term i rm.log))
    ∷ (lit "leaderCommit", show_ℤ rm.commit_index)
    ∷ (lit "entriesCount", show_ℕ (length entries))
    ∷ []

-- The ConfigMap that sendMessage creates; `now` is time.Now().UnixNano().
unfoldable pub message_config_map : Time → Str → Assoc Str → RaftManager → ConfigMap
message_config_map now to message rm = record {
  meta = record {
    name = lit "raft-message-" ++ (to ++ (b'-' ∷ show_ℕ now));
    namespace = rm.cluster.namespace;
    labels = (lit "raft-message", lit "true") ∷ (lit "target-node", to) ∷ [];
    owner_references = [];
  };
  content = message;
}
