-- ===== src/Soul/DenwaRenji.antt =====
-- server/dvadva-agent/src/soul/denwarenji.rs: the one message that a tool may send to an earlier
-- checkpoint of the conversation.
use rusty_kimi.Common.{Option, none, some, if◌then◌else◌}
use rusty_kimi.Common.Int.{ℤ, pos, leb_ℤ}
use rusty_kimi.Message.{Text}

pub record DMail : Type 0 where
  pub message : Text
  pub checkpoint_id : ℤ

pub data DenwaRenjiError : Type 0 where
  already_pending negative_checkpoint invalid_checkpoint : DenwaRenjiError

pub record DenwaRenji : Type 0 where
  pub pending : Option DMail
  pub n_checkpoints : ℤ

abbrev pub new : DenwaRenji
new = record { pending = none; n_checkpoints = pos 0 }

-- The guards, then the sending; `none`: it was sent.
unfoldable pub send_over : Option DMail → DMail → DenwaRenji → DenwaRenji × Option DenwaRenjiError
send_over (some _) dmail d = (d, some already_pending)
send_over none dmail d =
    if leb_ℤ (pos 0) dmail.checkpoint_id
    then if leb_ℤ d.n_checkpoints dmail.checkpoint_id
      then (d, some invalid_checkpoint)
      else (record d { pending = some dmail }, none)
    else (d, some negative_checkpoint)

unfoldable pub send_dmail : DMail → DenwaRenji → DenwaRenji × Option DenwaRenjiError
unfolding send_over
send_dmail dmail d = send_over d.pending dmail d

unfoldable pub set_n_checkpoints : ℤ → DenwaRenji → DenwaRenji
set_n_checkpoints n d = record d { n_checkpoints = n }

unfoldable pub fetch_pending_dmail : DenwaRenji → DenwaRenji × Option DMail
fetch_pending_dmail d = (record d { pending = none }, d.pending)
