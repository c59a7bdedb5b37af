-- ===== src/Db/Reachable.antt =====
-- The states that Puts and the background thread reach, and what Get answers in them.
use nova_kv.Prelude.{
  ℕ, ◌≡◌, refl, sym, ap, subst, ◌∙◌, inl, inr, Bool, true, false, Bytes, List, ◌∷◌, Option, none,
  some, Bool-cases, if_cases, if◌then◌else◌, bytes_eq,
}
use nova_kv.ValueRecord.{ValueRecord}
use nova_kv.SortedMap.{or_else, find}
use nova_kv.Tables.{MemOps, TableOps}
use nova_kv.Manifest.{Faults}
use nova_kv.Compaction.{L0ToL1Ctx}
use nova_kv.Compaction.Merge.{visible}
use nova_kv.Db.{
  Db, MinorCtx, get, write_mem, begin_minor, build_minor_sst, finish_minor, begin_compact,
  finish_compact_with,
}
use nova_kv.Db.View.{newest, IsDb, answer, get_lem, newest-write_mem, write_mem-IsDb}
use nova_kv.Db.Background.{
  Background, waiting, flushing, to_compact, compacting, System, rest, after_minor,
  after_begin_minor, after_begin_compact, bg_step_from, bg_step, Reach, opens, makes_room, writes,
  works,
}
use nova_kv.Db.Flush.{
  SameTables, IsFlushing, only_manifest, make_room-SameTables, make_room-Keeps,
  finish_minor-SameTables, begin_minor-SameTables, begin_minor-IsFlushing, IfFlushing,
}
use nova_kv.Db.Install.{IsPrepared}
use nova_kv.Db.Compact.{
  SameValues, IfPrepared, finish_compact_with-SameValues, begin_compact-SameValues,
  begin_compact-IfPrepared,
}

-- The answer of a Get after some writes, from the answer before them.
abbrev pub after_writes : Option ValueRecord → Option Bytes → Option Bytes
after_writes none before = before
after_writes (some r) before = visible (some r)

module _ {M T : Type 0} (mems : MemOps M) (tables : TableOps T) where
  abbrev IsBackground : Background M → Db M T → Type 0
  IsBackground waiting db = Unit
  IsBackground (flushing ctx) db = IsFlushing mems tables ctx db
  IsBackground to_compact db = Unit
  IsBackground (compacting ctx) db = IsPrepared mems tables ctx db.levels

  -- A state that follows `db`: as good, and with the values of `db`.
  record Follows (db : Db M T) (s : System M T) : Type 0 where
    pub healthy : IsDb mems tables s.db
    pub shown :
        (k : Bytes) → visible (newest mems tables k s.db) ≡ visible (newest mems tables k db)
    pub background : IsBackground s.bg s.db

  Follows-values :
      (db db' : Db M T) (bg : Background M)
      → IsDb mems tables db
      → SameValues mems tables db db'
      → IsBackground bg db'
      → Follows db (record { db = db'; bg = bg })
  Follows-values db db' bg ok same at_bg = record {
    healthy = same.healthy ok;
    shown = same.shown ok;
    background = at_bg;
  }

  as_values : (db db' : Db M T) → SameTables mems tables db db' → SameValues mems tables db db'
  as_values db db' same = record {
    shown = λ ok k. ap visible (same.newest k);
    healthy = same.healthy;
  }

  then_values :
      (a b c : Db M T)
      → SameValues mems tables a b
      → SameValues mems tables b c
      → SameValues mems tables a c
  then_values a b c x y = record {
    shown = λ ok k. y.shown (x.healthy ok) k ∙ x.shown ok k;
    healthy = λ ok. y.healthy (x.healthy ok);
  }

  Follows-rest :
      (db db' : Db M T)
      → IsDb mems tables db
      → SameValues mems tables db db'
      → Follows db (rest db')
  unfolding rest
  Follows-rest db db' ok same =
      let quiet = record db' { bg_compaction_scheduled = false } in
      Follows-values db quiet waiting ok
        (then_values db db' quiet same
          (as_values db' quiet (only_manifest mems tables db' quiet refl refl refl)))
        tt

  Follows-after_minor :
      (db : Db M T) (r : Db M T × Bool)
      → IsDb mems tables db
      → SameValues mems tables db r.0
      → Follows db (after_minor r)
  unfolding after_minor
  Follows-after_minor db (db', true) ok same = Follows-values db db' to_compact ok same tt
  Follows-after_minor db (db', false) ok same = Follows-rest db db' ok same

  Follows-begin_minor :
      (db : Db M T) (r : Db M T × Option (MinorCtx M))
      → IsDb mems tables db
      → SameValues mems tables db r.0
      → IfFlushing mems tables r
      → Follows db (after_begin_minor r)
  unfolding after_begin_minor
  Follows-begin_minor db (db', none) ok same h = Follows-rest db db' ok same
  Follows-begin_minor db (db', some ctx) ok same h = Follows-values db db' (flushing ctx) ok same h

  Follows-begin_compact :
      (db : Db M T) (r : Db M T × Option L0ToL1Ctx)
      → IsDb mems tables db
      → SameValues mems tables db r.0
      → IfPrepared mems tables r.0.levels (r.0.manifest, r.1)
      → Follows db (after_begin_compact r)
  unfolding after_begin_compact
  Follows-begin_compact db (db', none) ok same h = Follows-rest db db' ok same
  Follows-begin_compact db (db', some ctx) ok same h =
      Follows-values db db' (compacting ctx) ok same h

  -- One lock scope of the background thread.
  bg_step-Follows :
      (io : ℕ → Faults) (bg : Background M) (db : Db M T)
      → IsDb mems tables db
      → IsBackground bg db
      → Follows db (bg_step_from mems tables io bg db)
  unfolding bg_step_from
  bg_step-Follows io waiting db ok h =
      if_cases (Follows db) db.bg_compaction_scheduled
        (after_begin_minor (begin_minor mems tables (io 0) db)) (record { db = db; bg = waiting })
        (λ e.
          Follows-begin_minor db (begin_minor mems tables (io 0) db) ok
            (as_values db (begin_minor mems tables (io 0) db).0
              (begin_minor-SameTables mems tables (io 0) db))
            (begin_minor-IsFlushing mems tables (io 0) db))
        (λ e. record { healthy = ok; shown = λ k. refl; background = tt })
  bg_step-Follows io (flushing ctx) db ok h =
      let r = finish_minor mems tables io ctx (build_minor_sst mems tables ctx) db in
      Follows-after_minor db r ok
        (as_values db r.0 (finish_minor-SameTables mems tables io ctx db h ok))
  bg_step-Follows io to_compact db ok h =
      Follows-begin_compact db (begin_compact mems tables (io 0) db) ok
        (begin_compact-SameValues mems tables (io 0) db)
        (begin_compact-IfPrepared mems tables (io 0) db)
  bg_step-Follows io (compacting ctx) db ok h =
      Follows-rest db (finish_compact_with mems tables io ctx db) ok
        (finish_compact_with-SameValues mems tables io ctx db h ok)

  -- A state that the writes have made of `start`.
  record IsAfter (start : Db M T) (written : List (Bytes × ValueRecord)) (s : System M T)
      : Type 0 where
    pub healthy : IsDb mems tables s.db
    pub shown :
        (k : Bytes)
        → visible (newest mems tables k s.db)
          ≡ visible (or_else (find k written) (newest mems tables k start))
    pub background : IsBackground s.bg s.db

  room_background :
      (bg : Background M) (db db' : Db M T)
      → (db'.levels ≡ db.levels) × ((m : M) → db.imm ≡ some m → db'.imm ≡ some m)
      → IsBackground bg db
      → IsBackground bg db'
  room_background waiting db db' keeps h = tt
  room_background (flushing ctx) db db' keeps h = keeps.1 ctx.flushing_imm h
  room_background to_compact db db' keeps h = tt
  room_background (compacting ctx) db db' keeps h =
      subst (IsPrepared mems tables ctx) (sym keeps.0) h

  visible-write :
      (k j : Bytes) (r : ValueRecord) (written : List (Bytes × ValueRecord))
      (x y : Option ValueRecord)
      → visible x ≡ visible (or_else (find j written) y)
      → visible (if bytes_eq k j then some r else x)
        ≡ visible (or_else (find j ((k, r) ∷ written)) y)
  unfolding find
  visible-write k j r written x y h = elim (Bool-cases (bytes_eq k j)) [
    | inl same ↦ rw same refl
    | inr other ↦ rw other h
  ]

  stepped :
      (io : ℕ → Faults) (s : System M T)
      → IsDb mems tables s.db
      → IsBackground s.bg s.db
      → Follows s.db (bg_step mems tables io s)
  unfolding bg_step
  stepped io s ok h = bg_step-Follows io s.bg s.db ok h

  then-Follows :
      (start : Db M T) (written : List (Bytes × ValueRecord)) (s s' : System M T)
      → IsAfter start written s
      → (IsAfter start written s → Follows s.db s')
      → IsAfter start written s'
  then-Follows start written s s' before f =
      let after = f before in
      record {
        healthy = after.healthy;
        shown = λ k. after.shown k ∙ before.shown k;
        background = after.background;
      }

  Reach-IsAfter :
      (start : Db M T) (written : List (Bytes × ValueRecord)) (s : System M T)
      → IsDb mems tables start
      → Reach mems tables start written s
      → IsAfter start written s
  Reach-IsAfter start _ _ ok opens = record {
    healthy = ok;
    shown = λ k. unfold find in refl;
    background = tt;
  }
  Reach-IsAfter start written _ ok (makes_room {s = s} io db reach e) =
      let before = Reach-IsAfter start written s ok reach in
      let same = make_room-SameTables mems tables io s.db db e in
      record {
        healthy = same.healthy before.healthy;
        shown = λ k. ap visible (same.newest k) ∙ before.shown k;
        background =
            room_background s.bg s.db db (make_room-Keeps mems tables io s.db db e)
              before.background;
      }
  Reach-IsAfter start _ _ ok (writes {written = written} {s = s} k r reach fits typed) =
      let before = Reach-IsAfter start written s ok reach in
      record {
        healthy = write_mem-IsDb mems tables k r s.db typed before.healthy;
        shown = λ j.
            ap visible (newest-write_mem mems tables j k r s.db before.healthy)
            ∙ visible-write k j r written (newest mems tables j s.db) (newest mems tables j start)
                (before.shown j);
        background =
            room_background s.bg s.db (write_mem mems tables k r s.db)
              (unfold write_mem in (refl, λ m f. f)) before.background;
      }
  Reach-IsAfter start written _ ok (works {s = s} io reach) =
      then-Follows start written s (bg_step mems tables io s)
        (Reach-IsAfter start written s ok reach)
        (λ before. stepped io s before.healthy before.background)

  -- Put, the flush of a memory table and the compaction of L0 into L1, interleaved in any way at
  -- their lock scopes and with any failures of the file system and of the table builder: Get
  -- answers the last record that was written for the key, its value or, for a tombstone, nothing;
  -- and for a key that was not written it answers what it answered at the start. The start is a
  -- well-formed database with the background thread waiting, the records that are written are
  -- values or tombstones, and the tables keep the laws of their interfaces.
  pub get-Reach :
      (start : Db M T) (written : List (Bytes × ValueRecord)) (s : System M T) (k : Bytes)
      (value : ValueRecord)
      → IsDb mems tables start
      → Reach mems tables start written s
      → answer (get mems tables k value s.db)
        ≡ after_writes (find k written) (answer (get mems tables k value start))
  get-Reach start written s k value ok reach =
      let after = Reach-IsAfter start written s ok reach in
      get_lem mems tables k value s.db after.healthy ∙ after.shown k ∙ by_write (find k written)
    where
      by_write :
          (o : Option ValueRecord)
          → visible (or_else o (newest mems tables k start))
            ≡ after_writes o (answer (get mems tables k value start))
      by_write (some r) = refl
      by_write none = sym (get_lem mems tables k value start ok)
