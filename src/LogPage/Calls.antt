-- ===== src/LogPage/Calls.antt =====
-- The calls of trunk8.js from the log page raise nothing, and leave all but paragraphs.
use colt_core.Base.{ℕ, ◌≡◌, refl, ap, Option, none, inl, inr, All, Option-cases, ◌≢◌}
use colt_core.Trunk8.{Result, Cache}
use colt_core.Trunk8.Methods.{Holder, Call, Answer, trunk8}
use colt_core.Trunk8.Methods.Total.{IsUsable, HasData, Ends}
use colt_core.LogPage.State.{Item, Log, Moment, find_item}
use colt_core.LogPage.Cutting.{put_paragraph, settle, put_in_items, put_in_removed, trunk8_item}
use colt_core.LogPage.Kept.{
  Runs, Keeps, Keeps-refl, Usable, Loaded, IsReady, find_item-All, bare-modify_item,
  All-modify_item, NoItem, find_item-absent, All-both,
}

settle-Runs :
    (put : Holder → Cache → Log) (log : Log) (found : Option (Result Answer)) (P : Holder → Type 0)
    (Q : Log → Type 0)
    → Ends P found
    → ((h : Holder) (cache : Cache) → IsUsable h → P h → Q (put h cache))
    → Runs (settle put log found) Q
settle-Runs put log found P Q (h, cache, e, u, p) q =
    (put h cache, ap (settle put log) e, q h cache u p)

module _ (now : Moment) (except : ℕ → Type 0) (call : Call) (id : ℕ) (log : Log) where
  -- What is known of the page after a call that keeps all but paragraphs.
  abbrev pub Called : Log → Type 0
  Called log' = Keeps log log' × IsReady NoItem log'

  put_in_items-Called :
      ((it : Item) → it.id ≢ id → Loaded except it → HasData it.paragraph)
      → IsReady except log
      → (h : Holder) (cache : Cache) → IsUsable h
      → HasData h
      → Called (put_in_items id log h cache)
  put_in_items-Called others r h cache u d = (
    record {
      items = bare-modify_item id (put_paragraph h) log.items (λ it. refl);
      message_count = refl;
      syntax_error = refl;
      next_id = refl;
    },
    record {
      usable =
          All-modify_item Usable Usable id (put_paragraph h) log.items (λ it e p. u) (λ it n p. p)
            r.usable;
      loaded =
          All-modify_item (Loaded except) (Loaded NoItem) id (put_paragraph h) log.items
            (λ it e p. inr d) (λ it n p. inr (others it n p)) r.loaded;
      usable_removed = r.usable_removed;
    },
  )

  put_in_removed-Called :
      All (λ it. it.id ≢ id) log.items
      → ((it : Item) → it.id ≢ id → Loaded except it → HasData it.paragraph)
      → IsReady except log
      → (h : Holder) (cache : Cache) → IsUsable h
      → Unit {0}
      → Called (put_in_removed id log h cache)
  put_in_removed-Called absent others r h cache u d = (
    record { items = refl; message_count = refl; syntax_error = refl; next_id = refl },
    record {
      usable = r.usable;
      loaded =
          All-both (λ it. it.id ≢ id) (Loaded except) (Loaded NoItem) log.items
            (λ it n p. inr (others it n p)) absent r.loaded;
      usable_removed =
          All-modify_item Usable Usable id (put_paragraph h) log.removed (λ it e p. u) (λ it n p. p)
            r.usable_removed;
    },
  )

  absent-IsReady :
      All (λ it. it.id ≢ id) log.items
      → ((it : Item) → it.id ≢ id → Loaded except it → HasData it.paragraph)
      → IsReady except log
      → IsReady NoItem log
  absent-IsReady absent others r = record {
    usable = r.usable;
    loaded =
        All-both (λ it. it.id ≢ id) (Loaded except) (Loaded NoItem) log.items
          (λ it n p. inr (others it n p)) absent r.loaded;
    usable_removed = r.usable_removed;
  }

  pub item-Runs :
      ((it : Item)
        → Usable it
        → Loaded except it
        → Ends HasData (trunk8 (now.browser id) call it.paragraph log.cache))
      → (find_item id log.items ≡ none
          → (it : Item) → Usable it
          → Ends (λ h. Unit) (trunk8 (now.browser id) call it.paragraph log.cache))
      → ((it : Item) → it.id ≢ id → Loaded except it → HasData it.paragraph)
      → IsReady except log
      → Runs (trunk8_item now call id log) Called
  item-Runs in_items in_removed others r = elim (Option-cases (find_item id log.items)) [
    | inr (it, e) ↦
        unfold trunk8_item in
        rw (e, trunk8_item)
          (settle-Runs (put_in_items id log) log _ HasData Called
            (in_items it (find_item-All Usable id log.items it r.usable e)
              (find_item-All (Loaded except) id log.items it r.loaded e))
            (put_in_items-Called others r))
    | inl e ↦
        let absent = find_item-absent id log.items e in
        elim (Option-cases (find_item id log.removed)) [
          | inr (it, f) ↦
              unfold trunk8_item in
              rw (e, f, trunk8_item)
                (settle-Runs (put_in_removed id log) log _ (λ h. Unit) Called
                  (in_removed e it (find_item-All Usable id log.removed it r.usable_removed f))
                  (put_in_removed-Called absent others r))
          | inl f ↦
              unfold trunk8_item in
              rw (e, f, trunk8_item) (log, refl, (Keeps-refl log, absent-IsReady absent others r))
        ]
  ]
