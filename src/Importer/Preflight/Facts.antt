-- ===== src/Importer/Preflight/Facts.antt =====
-- The two maps of the preflight, read back.
use roamux.Base.{
  ◌≡◌, refl, ap, Bool, true, ◌&&◌, List, [], ◌∷◌, arith, if◌then◌else◌, lookup, erase,
  lookup-erase_other,
}
use roamux.Importer.Report.{EdgeCarrier, carrier_eq, requested, carrier_eq_sound}
use roamux.Importer.Preflight.{
  FileSystem, holds, source_is_available, dest_is_initialized, assign_all, carrier_available,
  dest_carrier_initialized, compute_edge_import_preflight,
}

same_fact : (f : EdgeCarrier → Bool) (d c : EdgeCarrier) → carrier_eq d c ≡ true → f d ≡ f c
same_fact f d c e = ap f (carrier_eq_sound d c e)

holds-assign_all :
    (cs : List EdgeCarrier) (f : EdgeCarrier → Bool) (m : List (EdgeCarrier × Bool))
    (c : EdgeCarrier)
    → holds (lookup carrier_eq c (assign_all cs f m))
      ≡ (if requested cs c then f c else holds (lookup carrier_eq c m))
unfolding assign_all
holds-assign_all [] f m c = refl
holds-assign_all (d ∷ ds) f m c = ground (
  arith,
  holds-assign_all ds f ((d, f d) ∷ erase carrier_eq d m) c,
  same_fact f d c,
  lookup-erase_other {V = Bool} carrier_eq carrier_eq_sound d c m,
)

module _ (fs : FileSystem) (app_data_root profile dest : FileSystem.FilePath fs)
    (cs : List EdgeCarrier) (c : EdgeCarrier) where
  -- What the preflight says of a carrier is what the file system shows, of a requested one, and
  -- false of any other.
  compute_edge_import_preflight-facts :
      (source_is_available (compute_edge_import_preflight fs app_data_root profile dest cs) c
        ≡ (requested cs c && carrier_available fs profile c))
      × (dest_is_initialized (compute_edge_import_preflight fs app_data_root profile dest cs) c
          ≡ (requested cs c && dest_carrier_initialized fs dest c))
  unfolding compute_edge_import_preflight source_is_available dest_is_initialized
  compute_edge_import_preflight-facts = (
    ground (arith, holds-assign_all cs (carrier_available fs profile) [] c),
    ground (arith, holds-assign_all cs (dest_carrier_initialized fs dest) [] c),
  )
