-- ===== src/Relationship/Scanned.antt =====
-- relationship-service.ts: the scans of a reconciliation leave the store of commands and the log alone.
use teti_bot.Base.{
  ℕ, zero, suc, String, Bool, Option, none, some, List, [], ◌∷◌, ◌==◌, number_equality,
  text_equality, if◌then◌else◌,
}
use teti_bot.Relationship.World.{Network, M, throw, return}
use teti_bot.Relationship.Keeps.{
  Condition, Leads, Leads-return, Leads-throw, Leads->>=, Leads-if, Leads-ask, Leads-lift,
  Leads-unbind, Leads-apply, Leads-bind,
}
use teti_bot.Relationship.Scan.{
  apply_all, checkpoint_or_scan, known_checkpoint, next_page, scan_changes, scan_snapshot_from,
}
use teti_bot.Relationship.{Document, conflict, exhausted}
use teti_bot.Relationship.Store.{Binding}

module _ (P : Condition) (n : Network) (teti_id : String) where
  refused : (b : Bool) → Leads P P (λ _. P) (if b then throw conflict else return tt)
  refused b = Leads-if b _ _ (λ _. Leads-throw conflict (λ q l h. h)) (λ _. Leads-return tt)

  apply_all-keeps : (ds : List Document) → Leads P P (λ _. P) (apply_all n teti_id ds)
  unfolding apply_all
  apply_all-keeps [] = Leads-return tt
  apply_all-keeps (d ∷ ds) =
      Leads->>= _ _ (Leads-lift _) (λ _. Leads->>= _ _ (Leads-apply n d) (λ _. apply_all-keeps ds))

  next_page-keeps :
      (next : Option String) (base : String) (seen : List String) (m : M String)
      → Leads P P (λ _. P) m
      → Leads P P (λ _. P) (next_page n teti_id next base seen m)
  unfolding next_page
  next_page-keeps none base seen m k =
      Leads-if (base == "") _ _ (λ _. Leads-throw conflict (λ q l h. h)) (λ _. Leads-return base)
  next_page-keeps (some c) base seen m k =
      Leads-if _ _ _ (λ _. Leads-throw conflict (λ q l h. h)) (λ _. k)

  scan_snapshot_from-keeps :
      (fuel : ℕ) (cursor : Option String) (seen : List String) (base : String)
      → Leads P P (λ _. P) (scan_snapshot_from n teti_id fuel cursor seen base)
  unfolding scan_snapshot_from
  scan_snapshot_from-keeps zero cursor seen base = Leads-throw exhausted (λ q l h. h)
  scan_snapshot_from-keeps (suc fuel) cursor seen base = Leads->>= _ _ (Leads-ask _) (λ page.
      Leads->>= _ _ (refused _) (λ _. Leads->>= _ _ (apply_all-keeps page.items) (λ _.
        next_page-keeps _ page.base_checkpoint seen _
          (scan_snapshot_from-keeps fuel _ _ page.base_checkpoint))))

  pub scan_changes-keeps :
      (fuel : ℕ) (seen : List String) (checkpoint : String)
      → Leads P P (λ _. P) (scan_changes n teti_id fuel seen checkpoint)
  unfolding scan_changes
  scan_changes-keeps zero seen checkpoint = Leads-throw exhausted (λ q l h. h)
  scan_changes-keeps (suc fuel) seen checkpoint = Leads->>= _ _ (refused _) (λ _.
      Leads->>= _ _ (Leads-ask _) (λ page. Leads->>= _ _ (refused _) (λ _.
        Leads->>= _ _ (apply_all-keeps page.items) (λ _. Leads->>= _ _ (Leads-bind _) (λ _.
          Leads-if page.has_more _ _
            (λ _. scan_changes-keeps fuel (checkpoint ∷ seen) page.checkpoint)
            (λ _. Leads-return tt))))))

  pub known_checkpoint-keeps :
      (o : Option Binding) → Leads P P (λ _. P) (known_checkpoint n teti_id o)
  unfolding known_checkpoint
  known_checkpoint-keeps none = Leads-return none
  known_checkpoint-keeps (some b) =
      Leads-if (b.teti_id == teti_id) _ _ (λ _. Leads-return (some b.checkpoint))
        (λ _. Leads->>= _ _ Leads-unbind (λ _. Leads-return none))

  pub checkpoint_or_scan-keeps :
      (fuel : ℕ) (o : Option String) → Leads P P (λ _. P) (checkpoint_or_scan n teti_id fuel o)
  unfolding checkpoint_or_scan
  checkpoint_or_scan-keeps fuel (some c) = Leads-return c
  checkpoint_or_scan-keeps fuel none = scan_snapshot_from-keeps fuel none [] ""
