-- ===== src/Relationship/Feed.antt =====
-- relationship-service.ts: a reconciliation from a stored checkpoint, where the server's feed is a fixed list of
-- pages and the callback does not throw.
use teti_bot.Base.{length, zero}
use teti_bot.Relationship.Scan.{
  no_items, apply_all, reconcile, scan_changes, known_checkpoint, checkpoint_or_scan,
}
use mathlib.Core.List.{append-nil, append_assoc}
use teti_bot.Base.{
  ℕ, suc, Bool, String, ◌≡◌, refl, ◌∙◌, true, false, none, List, [], ◌∷◌, ◌++◌, ◌==◌,
  number_equality, text_equality, ok, All, any, some, ◌<◌, arith, ==_refl,
}
use teti_bot.Relationship.World.{
  mark_compatible, ◌>>=◌, Network, lift, return, apply, World, ask, bind, throw, gets,
}
use teti_bot.Relationship.{ChangesPage, Document, Bootstrap, assert_compatible}
use teti_bot.Relationship.Command.{projection_ok, assert_projection}
use teti_bot.Relationship.Store.{validate_binding}
use teti_bot.Relationship.Service.{prepare, check_compatible, recover_pending, recover}

module _ (n : Network) (teti_id : String) where
  -- The page that the server gives for a checkpoint that it has not given before, with documents of this
  -- identity and a checkpoint that can be stored.
  pub record Serves (seen : List String) (after : String) (page : ChangesPage) : Type 0 where
    pub served : (t : ℕ) → n.changes t after ≡ ok page
    pub unseen : any (λ s. s == after) seen ≡ false
    pub projected : All (λ d. projection_ok d teti_id none ≡ true) page.items
    pub storable :
        validate_binding (record { teti_id = teti_id; checkpoint = page.checkpoint }) ≡ ok tt

  -- The pages behind a checkpoint: all but the last say that there is more, and are not empty.
  abbrev pub Feeds : List String → String → ChangesPage → List ChangesPage → Type 0
  Feeds seen after page [] = Serves seen after page × (page.has_more ≡ false)
  Feeds seen after page (next ∷ pages) =
      Serves seen after page
      × (page.has_more ≡ true)
      × (no_items page.items ≡ false)
      × Feeds (after ∷ seen) page.checkpoint next pages

  abbrev pub documents : ChangesPage → List ChangesPage → List Document
  documents page [] = page.items
  documents page (next ∷ pages) = page.items ++ documents next pages

  abbrev pub last_checkpoint : ChangesPage → List ChangesPage → String
  last_checkpoint page [] = page.checkpoint
  last_checkpoint page (next ∷ pages) = last_checkpoint next pages

  -- The store and the documents applied behind a whole feed, of a service that is found compatible.
  abbrev pub fed : World → ChangesPage → List ChangesPage → ℕ → World
  fed w page pages t = record w {
    applied = w.applied ++ documents page pages;
    binding = some (record { teti_id = teti_id; checkpoint = last_checkpoint page pages });
    ticks = t;
  }

  -- The service with nothing pending and a checkpoint stored for its identity, whether it has asked for the
  -- server's protocol or not.
  abbrev pub resumed : World → String → World
  resumed w checkpoint = record w {
    pending = none;
    binding = some (record { teti_id = teti_id; checkpoint = checkpoint });
  }

  abbrev pub found_compatible : World → World
  found_compatible w = record w { compatible = true }

  prepared :
      (bootstrap : Bootstrap) (compatible : Bool) (w : World)
      → ((t : ℕ) → n.bootstrap t ≡ ok bootstrap)
      → assert_compatible bootstrap ≡ ok tt
      → ((t : ℕ) → n.authentication t ≡ ok teti_id)
      → (t : ℕ) × (prepare n (record w { compatible = compatible })
          ≡ (ok teti_id, record (found_compatible w) { ticks = t }))
  unfolding prepare check_compatible ◌>>=◌ ask gets return lift mark_compatible
  prepared bootstrap true w served fits identity = (suc w.ticks, rw (identity w.ticks) refl)
  prepared bootstrap false w served fits identity =
      (suc (suc w.ticks), rw (served w.ticks) (rw fits (rw (identity (suc w.ticks)) refl)))

  module _ (applies : (t : ℕ) (d : Document) → n.apply t d ≡ ok tt) where
    apply_all_lem :
        (ds : List Document) (w : World)
        → All (λ d. projection_ok d teti_id none ≡ true) ds
        → (t : ℕ) × (apply_all n teti_id ds w
            ≡ (ok tt, record w { applied = w.applied ++ ds; ticks = t }))
    unfolding apply_all ◌>>=◌ lift return apply assert_projection
    apply_all_lem [] w h = (w.ticks, rw append-nil refl)
    apply_all_lem (d ∷ ds) w (good, h) =
        let now : World = record w { applied = w.applied ++ d ∷ []; ticks = suc w.ticks } in
        let (t, rest) = apply_all_lem ds now h in
        (t, rw good (rw (applies w.ticks d) (rest ∙ rw append_assoc refl)))

    scan_changes-fed :
        (fuel : ℕ) (seen : List String) (after : String) (page : ChangesPage)
        (pages : List ChangesPage) (w : World)
        → length pages < fuel
        → Feeds seen after page pages
        → (t : ℕ) × (scan_changes n teti_id fuel seen after w ≡ (ok tt, fed w page pages t))
    unfolding scan_changes ◌>>=◌ ask bind return throw
    scan_changes-fed zero seen after page pages w enough feeds = absurd (omega arith)
    scan_changes-fed (suc fuel) seen after page [] w enough (s, last) =
        let asked : World = record w { ticks = suc w.ticks } in
        let (t, all_applied) = apply_all_lem page.items asked s.projected in
        (t, rw s.unseen (rw (s.served w.ticks) (rw last (rw all_applied (rw s.storable refl)))))
    scan_changes-fed (suc fuel) seen after page (next ∷ pages) w enough
          (s, more, some_items, rest) =
        let asked : World = record w { ticks = suc w.ticks } in
        let (t, all_applied) = apply_all_lem page.items asked s.projected in
        let now : World = record w {
          applied = w.applied ++ page.items;
          binding = some (record { teti_id = teti_id; checkpoint = page.checkpoint });
          ticks = t;
        } in
        let (t', after_rest) =
          scan_changes-fed fuel (after ∷ seen) page.checkpoint next pages now (omega arith) rest in
        (
          t',
          rw s.unseen (
              rw (s.served w.ticks) (
                rw more (
                  rw some_items
                    (rw all_applied (rw s.storable (after_rest ∙ rw append_assoc refl)))))),
        )

    -- A reconciliation that starts from the stored checkpoint of its identity, which stays the same,
    -- with nothing pending, whether or not the service has asked for the server's protocol before, on
    -- a server whose protocol is compatible and that serves these pages behind the checkpoint, with a
    -- callback that never throws: with more fuel than there are pages behind the first it returns, has
    -- applied every document of the pages once and in order behind those applied before, and stored
    -- the last page's checkpoint.
    pub reconcile-fed :
        (fuel : ℕ) (checkpoint : String) (page : ChangesPage) (pages : List ChangesPage) (w : World)
        (bootstrap : Bootstrap)
        → ((t : ℕ) → n.bootstrap t ≡ ok bootstrap)
        → assert_compatible bootstrap ≡ ok tt
        → ((t : ℕ) → n.authentication t ≡ ok teti_id)
        → length pages < fuel
        → Feeds [] checkpoint page pages
        → (t : ℕ) × (reconcile n fuel (resumed w checkpoint)
            ≡ (ok tt, fed (found_compatible (resumed w checkpoint)) page pages t))
    unfolding reconcile recover_pending recover known_checkpoint checkpoint_or_scan ◌>>=◌ ask gets
        return
    reconcile-fed fuel checkpoint page pages w bootstrap served fits identity enough feeds =
        let start = resumed w checkpoint in
        let (t₁, ready) = prepared bootstrap start.compatible start served fits identity in
        let asked : World = record (found_compatible start) { ticks = t₁ } in
        let (t, scanned) = scan_changes-fed fuel [] checkpoint page pages asked enough feeds in
        (t, rw ready (rw (==_refl teti_id) scanned))
