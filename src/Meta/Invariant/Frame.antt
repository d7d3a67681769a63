-- ===== src/Meta/Invariant/Frame.antt =====
-- The records that the search commands and the maintenance commands leave as they are.
use dal_service.Prelude.{◌≡◌, refl, All, List, [], ◌∷◌, arith}
use dal_service.Meta.Store.{MetaStore, MetaMutation, write, write_all}
use dal_service.Meta.Step.{IsCataloged}

-- The two states have the same cluster, maintenance, directory and placement records.
abbrev pub SameCore : MetaStore → MetaStore → Type 0
SameCore s t =
    (t.cluster ≡ s.cluster)
    × (t.maintenance ≡ s.maintenance)
    × (t.directory ≡ s.directory)
    × (t.retired ≡ s.retired)
    × (t.placement ≡ s.placement)

write-IsCataloged : (r s : MetaStore) (m : MetaMutation) → IsCataloged r m → SameCore s (write s m)
unfolding write
write-IsCataloged r s (MetaMutation.put_search_index x) h = (refl, refl, refl, refl, refl)
write-IsCataloged r s (MetaMutation.delete_search_index n) h = (refl, refl, refl, refl, refl)
write-IsCataloged r s (MetaMutation.put_search_ready k x) h = (refl, refl, refl, refl, refl)
write-IsCataloged r s (MetaMutation.delete_search_ready k) h = (refl, refl, refl, refl, refl)
write-IsCataloged r s m h = absurd (ground arith)

pub write_all-IsCataloged :
    (r s : MetaStore) (ms : List MetaMutation)
    → All (IsCataloged r) ms
    → SameCore s (write_all s ms)
unfolding write_all
write_all-IsCataloged r s [] h = (refl, refl, refl, refl, refl)
write_all-IsCataloged r s (m ∷ ms) h =
    ground (arith, write-IsCataloged r s m h.0, write_all-IsCataloged r (write s m) ms h.1)
