-- ===== src/Resolver/Model.antt =====
-- resolver/src/model.rs: what travels and what is stored. `V` stands for `serde_json::Value`: a
-- payload is copied and never looked into.
use claude_usage_tracker_win.Prelude.{Option, List, String, Dict}

pub record Envelope (V : Type 0) : Type 0 where
  pub id : String
  pub ts : String
  pub recipient : String
  pub source : String
  pub kind : String
  pub payload : V

pub record Device : Type 0 where
  pub device_id : String
  pub public_key : String
  pub enrolled_at : String
  pub last_seen : Option String

pub record Message (V : Type 0) : Type 0 where
  pub id : String
  pub recipient : String
  pub source : String
  pub kind : String
  pub payload : V
  pub ts : String
  pub delivered_to : List String

pub record PendingCode : Type 0 where
  pub code_hash : String
  pub account : String
  pub expires_at : Option String

pub record Store (V : Type 0) : Type 0 where
  pub accounts : Dict (List Device)
  pub mailbox : List (Message V)
  pub pending_codes : List PendingCode

pub record MessageOut (V : Type 0) : Type 0 where
  pub id : String
  pub source : String
  pub kind : String
  pub payload : V
  pub ts : String

-- `MessageOut::from`
unfoldable pub message_out : {V : Type 0} → Message V → MessageOut V
message_out m = record {
  id = m.id;
  source = m.source;
  kind = m.kind;
  payload = m.payload;
  ts = m.ts;
}
