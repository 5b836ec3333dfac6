-- ===== src/Relationship/Scan.antt =====
-- services/network/relationship-service.ts: `reconcile`, which hands every document of the snapshot and of the
-- changes behind it to the callback. The loops on pages take fuel; Relationship/Feed says how much is enough.
use teti_bot.Relationship.World.{
  ◌>>=◌, ◌>>◌, Network, M, return, throw, lift, unbind, ask, gets, apply, bind,
}
use teti_bot.Base.{
  ℕ, zero, suc, String, Bool, true, false, ◌&&◌, Option, none, some, List, [], ◌∷◌, ◌==◌, ◌!=◌,
  number_equality, text_equality, if◌then◌else◌, any,
}
use teti_bot.Relationship.{Document, conflict, exhausted}
use teti_bot.Relationship.Store.{Binding}
use teti_bot.Relationship.Service.{prepare, recover_pending}
use teti_bot.Relationship.Command.{assert_projection}

-- `baseCheckpoint && page.baseCheckpoint !== baseCheckpoint`.
abbrev is_other_base : String → String → Bool
is_other_base base next = base != "" && next != base

-- `nextCursor ?? undefined`, where the empty text ends the loop too.
abbrev pub next_cursor_of : Option String → Option String
next_cursor_of none = none
next_cursor_of (some c) = if c == "" then none else some c

abbrev pub no_items : List Document → Bool
no_items [] = true
no_items (_ ∷ _) = false

module _ (n : Network) (teti_id : String) where
  unfoldable pub apply_all : List Document → M (Unit {0})
  apply_all [] = return tt
  apply_all (d ∷ ds) = do lift (assert_projection d teti_id none); apply n d; apply_all ds

  -- The end of a round: the base checkpoint, or the next page.
  unfoldable pub next_page : Option String → String → List String → M String → M String
  next_page none base seen more = if base == "" then throw conflict else return base
  next_page (some c) base seen more = if any (λ s. s == c) seen then throw conflict else more

  abbrev pub cursors : Option String → List String → List String
  cursors none seen = seen
  cursors (some c) seen = c ∷ seen

  unfoldable pub scan_snapshot_from : ℕ → Option String → List String → String → M String
  unfolding next_page
  scan_snapshot_from zero cursor seen base = throw exhausted
  scan_snapshot_from (suc fuel) cursor seen base = do
    page ← ask (λ t. n.snapshot t cursor)
    if is_other_base base page.base_checkpoint then throw conflict else return tt
    apply_all page.items
    let next = next_cursor_of page.next_cursor
    next_page next page.base_checkpoint seen
        (scan_snapshot_from fuel next (cursors next seen) page.base_checkpoint)

  unfoldable pub scan_changes : ℕ → List String → String → M (Unit {0})
  scan_changes zero seen checkpoint = throw exhausted
  scan_changes (suc fuel) seen checkpoint = do
    if any (λ s. s == checkpoint) seen then throw conflict else return tt
    page ← ask (λ t. n.changes t checkpoint)
    if page.has_more && no_items page.items then throw conflict else return tt
    apply_all page.items
    bind (record { teti_id = teti_id; checkpoint = page.checkpoint })
    let rest = scan_changes fuel (checkpoint ∷ seen) page.checkpoint
    if page.has_more then rest else return tt

  -- The checkpoint that is stored for this identity; one of another identity is dropped.
  unfoldable pub known_checkpoint : Option Binding → M (Option String)
  known_checkpoint none = return none
  known_checkpoint (some b) =
      if b.teti_id == teti_id then return (some b.checkpoint) else (do unbind; return none)

  unfoldable pub checkpoint_or_scan : ℕ → Option String → M String
  checkpoint_or_scan fuel (some checkpoint) = return checkpoint
  checkpoint_or_scan fuel none = scan_snapshot_from fuel none [] ""

module _ (n : Network) where
  unfoldable pub reconcile : ℕ → M (Unit {0})
  unfolding known_checkpoint checkpoint_or_scan
  reconcile fuel = do
    teti_id ← prepare n
    _ ← recover_pending n teti_id
    stored ← gets (λ w. w.binding)
    known ← known_checkpoint n teti_id stored
    checkpoint ← checkpoint_or_scan n teti_id fuel known
    scan_changes n teti_id fuel [] checkpoint
