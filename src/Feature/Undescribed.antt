-- ===== src/Feature/Undescribed.antt =====
-- What the collectors of internal/collectors send although their `Describe` leaves it out, and the
-- collectors whose `Collect` may panic.
use mikrotik_exporter.Prelude.{
  Bool, none, some, List, [], ◌∷◌, Bytes, codes, contains, Dict, lookup,
}
use mikrotik_exporter.Metrics.Context.{
  Desc, description, label_dev_name, label_dev_address, label_comment,
}
use mikrotik_exporter.Feature.Common.{labelled}

-- The entries of disk_collector.go.
abbrev pub disk_entry : Desc
disk_entry =
    description (codes "disk") (codes "entry")
      (label_dev_name
        ∷ label_dev_address
        ∷ codes "slot"
        ∷ codes "type"
        ∷ codes "fs-uuid"
        ∷ label_comment
        ∷ codes "parent"
        ∷ codes "fs"
        ∷ codes "model"
        ∷ codes "serial"
        ∷ [])
      (codes "slot for disk")

-- The counts of neighbor_collector.go.
abbrev pub neighbor_stats : Desc
neighbor_stats =
    labelled (codes "neighbor") (codes "discovered")
      (codes "Number of discovered neighbors by interface") (codes "interface")

-- The count of ppp_collector.go.
abbrev pub ppp_active : Desc
ppp_active =
    description (codes "ppp") (codes "active") (label_dev_name ∷ label_dev_address ∷ [])
      (codes "number of active ppp connections")

-- The state of DDNS in cloud_collector.go.
abbrev pub ddns_enabled_desc : Desc
ddns_enabled_desc =
    description (codes "cloud") (codes "ddns_enabled") (label_dev_name ∷ label_dev_address ∷ [])
      (codes "ddns-enabled for cloud")

abbrev pub undescribed_of : Dict (List Desc)
undescribed_of =
    (codes "cloud", ddns_enabled_desc ∷ [])
    ∷ (codes "disk", disk_entry ∷ [])
    ∷ (codes "neighbor", neighbor_stats ∷ [])
    ∷ (codes "ppp", ppp_active ∷ [])
    ∷ []

abbrev pub undescribed : Bytes → List Desc
undescribed name = elim (lookup name undescribed_of) [ none ↦ [] | some ds ↦ ds ]

-- The collectors that may panic: on a host name that is a lone quote, on labels that do not fit, on a
-- band of white space only.
abbrev pub may_panic : Bytes → Bool
may_panic name = contains (codes "dhcpl" ∷ codes "ipv6_neighbor" ∷ codes "lte" ∷ []) name
