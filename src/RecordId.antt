-- ===== src/RecordId.antt =====
-- index/btree.h, `RecordId`: the page and the slot of a row.
use minidb.Prelude.{ℕ, Bool, ◌&&◌, ◌==◌}

pub record RecordId : Type 0 where
  pub page_id : ℕ
  pub slot_idx : ℕ

-- RecordId::operator==
abbrev pub same_rid : RecordId → RecordId → Bool
same_rid a b = a.page_id == b.page_id && a.slot_idx == b.slot_idx
