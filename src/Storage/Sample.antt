-- ===== src/Storage/Sample.antt =====
-- A JSON library whose values are the models themselves.
use divoom_dev.Prelude.{refl, true, []}
use divoom_dev.Prelude.Int.{pos}
use divoom_dev.Storage.{Account, CalendarSource, Json}
use divoom_dev.Storage.Accounts.{KeepsAccounts}

pub data Item : Type 0 where
  of_account : Account → Item
  of_source : CalendarSource → Item

abbrev pub plain : Json Item
plain = record {
  of_account = of_account;
  to_account = λ v. elim v [
    | of_account a ↦ a
    | of_source s ↦ record { service = []; login = []; password = [] }
  ];
  service_of = λ v. elim v [ of_account a ↦ a.service | of_source s ↦ [] ];
  of_source = of_source;
  to_source = λ v. elim v [
    | of_account a ↦ record { url = []; priority = pos 0; enabled = true }
    | of_source s ↦ s
  ];
  url_of = λ v. elim v [ of_account a ↦ [] | of_source s ↦ s.url ];
}

abbrev pub plain_keeps_accounts : KeepsAccounts plain
plain_keeps_accounts = record { account = λ a. refl; service = λ a. refl }
