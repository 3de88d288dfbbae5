-- ===== src/Repos/Database/Memory.antt =====
-- A database in memory, which meets the laws.
use shim_service.Base.{
  refl, ◌&&◌, Option, none, some, if◌then◌else◌, ◌==◌, nat_eq, string_eq, pair_eq,
}
use shim_service.Records.{Record}
use shim_service.Repos.Table.{Table, is_none, holds, on_item}
use shim_service.Repos.Sequence.{Key, Sequence}
use shim_service.Repos.Database.{ItemKey, Database, IsLawful, all_hold, reasons, committed}

abbrev pub Cells : Type 0
Cells = (Key → Option Sequence) × (ItemKey → Option Record)

abbrev sequence_table : Table Key Sequence
sequence_table = record {
  State = Cells;
  get_item = λ s k. s.0 k;
  put_new = λ s k r.
      (((λ j. if (j == k) && is_none (s.0 k) then some r else s.0 j), s.1), is_none (s.0 k));
  update_if = λ s k p f. (
    ((λ j. if (j == k) && holds p (s.0 k) then on_item f (s.0 k) else s.0 j), s.1),
    holds p (s.0 k),
  );
  delete_if =
      λ s k p. (((λ j. if (j == k) && holds p (s.0 k) then none else s.0 j), s.1), holds p (s.0 k));
}

abbrev pub memory_database : Database
memory_database = record {
  sequences = sequence_table;
  get_item = λ s k. s.1 k;
  transact =
      λ rs s. ((if all_hold s.1 rs then none else some (reasons s.1 rs)), (s.0, committed s.1 rs));
}

pub memory_database-IsLawful : IsLawful memory_database
memory_database-IsLawful = record {
  sequences_lawful = record {
    put_new_ok = λ s k r. refl;
    get-put_new = λ s k r j. refl;
    update_if_ok = λ s k p f. refl;
    get-update_if = λ s k p f j. refl;
    delete_if_ok = λ s k p. refl;
    get-delete_if = λ s k p j. refl;
  };
  transact_answer = λ rs s. refl;
  rows-transact = λ rs s k. refl;
  transact_spares = λ rs s k. refl;
  put_new_spares = λ s n q k. refl;
  update_if_spares = λ s n p f k. refl;
}
