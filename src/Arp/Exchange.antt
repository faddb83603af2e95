-- ===== src/Arp/Exchange.antt =====
-- A request and its reply between two hosts that run src/kernel/Network/Protocols/arp.c.
use amq_os.Arp.{
  Arp, ArpPacket, NetConfig, arp_cache_lookup, arp_receive, arp_send_request, broadcast, reply_to,
  request_for,
}
use amq_os.Arp.Cache.{arp_cache_add_lem}
use amq_os.Arp.Slots.{IsValid}
use amq_os.Prelude.{◌+◌, ◌^◌, ◌<◌, ◌≡◌, refl, true, none, some, arith, ◌==◌}

-- Between two hosts with valid caches and a time that does not wrap: the request of the one for the
-- address of the other is answered to its sender, the reply is not answered, and afterwards each host
-- finds the hardware address of the other in its cache.
pub arp_receive-arp_send_request :
    (us them : NetConfig) (a b : Arp)
    → IsValid a
    → IsValid b
    → a.time + 1 < 2 ^ 32
    → b.time + 1 < 2 ^ 32
    → let (target, request) = arp_send_request us them.ip in
      let (answer, b') = arp_receive them b request 28 in
      (target ≡ broadcast)
      × (arp_cache_lookup b' us.ip ≡ some us.mac)
      × (reply : ArpPacket) × (answer ≡ some (us.mac, reply))
      × (let (second, a') = arp_receive us a reply 28 in
          (second ≡ none) × (arp_cache_lookup a' them.ip ≡ some them.mac))
unfolding arp_receive arp_send_request
arp_receive-arp_send_request us them a b va vb ra rb =
    let requested = (arp_cache_add_lem b us.ip us.mac vb rb).1 in
    let replied = (arp_cache_add_lem a them.ip them.mac va ra).1 in
    let same : them.ip == them.ip ≡ true = ground arith in
    (refl, requested, reply_to them (request_for us them.ip), rw same refl, (refl, replied))
