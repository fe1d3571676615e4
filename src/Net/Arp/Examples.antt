-- ===== src/Net/Arp/Examples.antt =====
-- The cache of addresses at fixed inputs.
use axiome_os.Prelude.{ℕ, ◌≡◌, refl, true, none, some, List, [], ◌∷◌, arith}
use axiome_os.Net.Arp.{Dev, arp_init, arp_cache_insert, arp_lookup, arp_handle_rx, arp_send_request}
use axiome_os.Net.Arp.Insert.{arp_lookup-arp_cache_insert, after_ticks}
use axiome_os.Net.Arp.Exchange.{arp_handle_rx-arp_send_request}

abbrev router : List ℕ
router = 2 ∷ 0 ∷ 0 ∷ 0 ∷ 0 ∷ 1 ∷ []

abbrev client : Dev
client = record { mac = 2 ∷ 0 ∷ 0 ∷ 0 ∷ 0 ∷ 2 ∷ []; ip = 0x0F02000A }

abbrev server : Dev
server = record { mac = router; ip = 0x0202000A }

arp_lookup-arp_cache_insert_example :
    arp_lookup 7 (after_ticks 299 (arp_cache_insert 7 router arp_init)) ≡ some router
arp_lookup-arp_cache_insert_example =
    arp_lookup-arp_cache_insert 299 7 router arp_init (omega arith) (omega arith)

arp_handle_rx-arp_send_request_example :
    arp_handle_rx server true (arp_send_request client 0x0202000A) arp_init ≡ (none, arp_init)
arp_handle_rx-arp_send_request_example =
    arp_handle_rx-arp_send_request client server true arp_init
      (record { mac_sized = refl; ip_sized = omega arith }) (λ e. absurd (omega (arith, e)))
