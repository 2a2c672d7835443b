-- ===== src/LogPage/Cuts.antt =====
-- Options, `update` and `revert` of trunk8.js, called from the log page.
use colt_core.Base.{ℕ, ◌≡◌, refl, ap, Option, some, none, inl, inr, List, [], ◌∷◌, codes}
use colt_core.Trunk8.{Result}
use colt_core.Trunk8.Methods.{Holder, Call, named, options, Answer, trunk8}
use colt_core.Trunk8.Methods.Total.{HasData, Ends, options-Ends, update-Ends, revert-Ends}
use colt_core.LogPage.State.{Item, Log, Moment, Outcome, done, ◌>>=◌, find_item, update_dotdotdot}
use colt_core.LogPage.Cutting.{two_lines, trunk8_item, trunk8_items, push, dotdotdot}
use colt_core.LogPage.Kept.{
  Runs, >>=-Runs, Keeps, Keeps-refl, Keeps-trans, Usable, Loaded, IsReady, NoItem, All-both,
}
use colt_core.LogPage.Calls.{item-Runs}

ended : (P : Holder → Type 0) (o : Option (Result Answer)) → Ends P o → Ends (λ h. Unit) o
ended P o (h, cache, e, u, p) = (h, cache, e, u, tt)

abbrev pub NewItem : ℕ → ℕ → Type 0
NewItem id k = k ≡ id

-- Of the calls: options, which give an item its data, `update`, and `revert`.
module _ (now : Moment) where
  pub options-Runs :
      (id : ℕ) (log : Log)
      → IsReady (NewItem id) log
      → Runs
          (trunk8_item now (options two_lines) id log)
          (λ log'. Keeps log log' × IsReady NoItem log')
  options-Runs id log r =
      item-Runs now (NewItem id) (options two_lines) id log
        (λ it u l. options-Ends (now.browser id) two_lines it.paragraph log.cache refl refl u)
        (λ e it u.
          ended HasData _
            (options-Ends (now.browser id) two_lines it.paragraph log.cache refl refl u))
        (λ it n l. elim l [ inl e ↦ absurd (n e) | inr d ↦ d ]) r

  ready_still : (id : ℕ) (log : Log) → IsReady NoItem log → IsReady (NewItem id) log
  ready_still id log r = record {
    usable = r.usable;
    loaded =
        All-both (Loaded NoItem) (Loaded NoItem) (Loaded (NewItem id)) log.items
          (λ it p q. inr (elim p [ inl e ↦ absurd e | inr d ↦ d ])) r.loaded r.loaded;
    usable_removed = r.usable_removed;
  }

  pub update-Runs :
      (id : ℕ) (log : Log)
      → IsReady NoItem log
      → Runs
          (trunk8_item now (named (codes "update") none) id log)
          (λ log'. Keeps log log' × IsReady NoItem log')
  update-Runs id log r =
      item-Runs now NoItem (named (codes "update") none) id log
        (λ it u l.
          kept it.paragraph _ (loaded it l) (update-Ends (now.browser id) it.paragraph log.cache u))
        (λ e it u. ended _ _ (update-Ends (now.browser id) it.paragraph log.cache u))
        (λ it n l. loaded it l) r
    where
      loaded : (it : Item) → Loaded NoItem it → HasData it.paragraph
      loaded it l = elim l [ inl e ↦ absurd e | inr d ↦ d ]

      kept :
          (h : Holder) (o : Option (Result Answer))
          → HasData h
          → Ends (λ h'. HasData h → HasData h') o
          → Ends HasData o
      kept h o d (h', cache, e, u, f) = (h', cache, e, u, f d)

  pub revert-Runs :
      (id : ℕ) (log : Log) (it : Item)
      → find_item id log.items ≡ some it
      → IsReady NoItem log
      → Runs
          (trunk8_item now (named (codes "revert") none) id log)
          (λ log'. Keeps log log' × IsReady NoItem log')
  revert-Runs id log it found r =
      item-Runs now NoItem (named (codes "revert") none) id log (λ it u l. kept it (loaded it l) u)
        (λ e it u. cc) (λ it n l. loaded it l) r
    where
      loaded : (it : Item) → Loaded NoItem it → HasData it.paragraph
      loaded it l = elim l [ inl e ↦ absurd e | inr d ↦ d ]

      kept :
          (it : Item)
          → HasData it.paragraph
          → Usable it
          → Ends HasData
              (trunk8 (now.browser id) (named (codes "revert") none) it.paragraph log.cache)
      kept it (el, e) u =
          let (h, cache, f, v, (d, t)) =
            revert-Ends (now.browser id) it.paragraph log.cache el e u in
          (h, cache, f, v, d)

  -- A call on several items, where it is known of one.
  pub items-Runs :
      (call : Call) (ids : List ℕ) (log : Log)
      → ((id : ℕ) (l : Log)
          → IsReady NoItem l
          → Runs (trunk8_item now call id l) (λ l'. Keeps l l' × IsReady NoItem l'))
      → IsReady NoItem log
      → Runs (trunk8_items now call ids log) (λ log'. Keeps log log' × IsReady NoItem log')
  unfolding trunk8_items
  items-Runs call [] log each r = (log, refl, (Keeps-refl log, r))
  items-Runs call (id ∷ ids) log each r =
      >>=-Runs (trunk8_item now call id log) (trunk8_items now call ids) (each id log r)
        (λ log1 (k, r1).
          let (log2, e, (k2, r2)) = items-Runs call ids log1 each r1 in
          (log2, e, (Keeps-trans k k2, r2)))

  queued :
      (ids : List ℕ) (o : Outcome) (log : Log)
      → Runs o (λ log'. Keeps log log' × IsReady NoItem log')
      → Runs
          (o >>= λ cut. done (update_dotdotdot (push ids cut)))
          (λ log'. Keeps log log' × IsReady NoItem log')
  queued ids o log (log', e, (k, r)) = (
    update_dotdotdot (push ids log'),
    ap (λ o'. o' >>= λ cut. done (update_dotdotdot (push ids cut))) e,
    (
      record {
        items = k.items;
        message_count = k.message_count;
        syntax_error = k.syntax_error;
        next_id = k.next_id;
      },
      record { usable = r.usable; loaded = r.loaded; usable_removed = r.usable_removed },
    ),
  )

  pub dotdotdot-Runs :
      (ids : List ℕ) (log : Log)
      → IsReady NoItem log
      → Runs (dotdotdot now ids log) (λ log'. Keeps log log' × IsReady NoItem log')
  unfolding dotdotdot
  dotdotdot-Runs ids log r =
      queued ids _ log (
        items-Runs (options two_lines) ids log (λ id l q. options-Runs id l (ready_still id l q)) r)

  -- `dotdotdot` on the item that was just made.
  pub new-dotdotdot-Runs :
      (id : ℕ) (log : Log)
      → IsReady (NewItem id) log
      → Runs (dotdotdot now (id ∷ []) log) (λ log'. Keeps log log' × IsReady NoItem log')
  unfolding dotdotdot trunk8_items
  new-dotdotdot-Runs id log r = queued (id ∷ []) _ log (
      >>=-Runs (trunk8_item now (options two_lines) id log)
        (trunk8_items now (options two_lines) []) (options-Runs id log r)
        (λ log1 p. (log1, refl, p)))
