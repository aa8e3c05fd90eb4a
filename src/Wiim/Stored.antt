-- ===== src/Wiim/Stored.antt =====
-- The inventory of service/src/wiim.rs, saved and loaded again.
use ahara_collector.Prelude.{
  ℕ, ◌^◌, ◌<◌, ◌≡◌, refl, ◌∙◌, false, Option, none, some, List, [], ◌∷◌, Text, map, All, lt→ltb,
  arith,
}
use ahara_collector.Prelude.Int.{pos, to_u16, to_u64}
use ahara_collector.Prelude.Options.{◌>>=◌}
use ahara_collector.Prelude.Results.{ok}
use ahara_collector.Prelude.Parsing.{parse_ipv4}
use ahara_collector.Net.{show_ipv4}
use ahara_collector.Net.Laws.{parse_ipv4-show_ipv4}
use ahara_collector.Json.Syntax.{Floats, arr, obj, end, insert, get_field, get, as_str, as_i64}
use ahara_collector.Json.Canonical.{Canonical, CanonicalItems, CanonicalFields, insert-Canonical}
use ahara_collector.Json.NumberRoundTrip.{PrintsBack}
use ahara_collector.Json.RoundTrip.{parse-to_string}
use ahara_collector.Envelope.{insert_text}
use ahara_collector.Envelope.Ordered.{insert_text-Canonical}
use ahara_collector.Sensors.{text_of}
use ahara_collector.Wiim.{
  WiimServices, WiimDevice, seconds_int, services_fields, named_fields, optional_fields,
  device_json, int_of, services_of, device_of, inventory_items, devices_of, unreachable, saved,
  load_document, load_inventory,
}

-- What holds of every value of the types of the fields, the clock's range aside.
pub record IsStorable (d : WiimDevice) : Type 0 where
  pub ip : d.ip < 2 ^ 32
  pub port : d.description_port < 2 ^ 16
  pub seen : d.last_seen_seconds < 2 ^ 63

module _ (F : Type 0) where
  services_of-services_fields :
      (a b c : Option Text)
      → services_of {F = F} (
          obj (
            services_fields
              (record { av_transport_path = a; rendering_control_path = b; play_queue_path = c })))
        ≡ record { av_transport_path = a; rendering_control_path = b; play_queue_path = c }
  unfolding services_of services_fields text_of get get_field insert insert_text as_str
  services_of-services_fields none none none = refl
  services_of-services_fields none none (some c) = refl
  services_of-services_fields none (some b) none = refl
  services_of-services_fields none (some b) (some c) = refl
  services_of-services_fields (some a) none none = refl
  services_of-services_fields (some a) none (some c) = refl
  services_of-services_fields (some a) (some b) none = refl
  services_of-services_fields (some a) (some b) (some c) = refl

  -- What is read of a device, whichever of its optional texts are there.
  read_back : WiimDevice → Option ℕ → Option ℕ → Option ℕ → Option WiimDevice
  read_back d ip port seen = do
    i ← ip
    p ← port
    s ← seen
    some (record d {
      ip = i;
      description_port = p;
      last_seen_seconds = s;
      services = services_of {F = F} (obj (services_fields d.services));
      reachable = false;
    })

  device_of-fields :
      (d : WiimDevice) (model firmware : Option Text)
      → device_of {F = F} (device_json (record d { model = model; firmware = firmware }))
        ≡ read_back
            (record d { model = model; firmware = firmware })
            (parse_ipv4 (show_ipv4 d.ip))
            (to_u16 (pos d.description_port))
            (to_u64 (seconds_int d.last_seen_seconds))
  unfolding device_of device_json optional_fields named_fields insert_text insert get get_field
      text_of int_of as_str as_i64 read_back
  device_of-fields d none none = refl
  device_of-fields d none (some f) = refl
  device_of-fields d (some m) none = refl
  device_of-fields d (some m) (some f) = refl

  -- A device is read back from its JSON, as one that is not reachable; its address and port are in
  -- their types' ranges and its time below 2^63.
  pub device_of-device_json :
      (d : WiimDevice) → IsStorable d → device_of {F = F} (device_json d) ≡ some (unreachable d)
  unfolding read_back unreachable seconds_int
  device_of-device_json d h =
      device_of-fields d d.model d.firmware
      ∙ rw
          (
            parse_ipv4-show_ipv4 d.ip h.ip,
            lt→ltb d.description_port (2 ^ 16) h.port,
            lt→ltb d.last_seen_seconds (2 ^ 63) h.seen,
            services_of-services_fields d.services.av_transport_path
                d.services.rendering_control_path d.services.play_queue_path,
          )
          refl

  devices_of-inventory_items :
      (ds : List WiimDevice)
      → All IsStorable ds
      → devices_of {F = F} (inventory_items ds) ≡ some (map unreachable ds)
  unfolding devices_of inventory_items
  devices_of-inventory_items [] h = refl
  devices_of-inventory_items (d ∷ ds) (p, h) =
      rw (device_of-device_json d p, devices_of-inventory_items ds h) refl

  module _ (P : F → Type 0) where
    services_fields-Canonical : (s : WiimServices) → CanonicalFields P none (services_fields s)
    unfolding services_fields
    services_fields-Canonical s = insert_text-Canonical P _ s.play_queue_path _ (
        insert_text-Canonical P _ s.rendering_control_path _
          (insert_text-Canonical P _ s.av_transport_path end tt))

    optional_fields-Canonical : (d : WiimDevice) → CanonicalFields P none (optional_fields d)
    unfolding optional_fields
    optional_fields-Canonical d =
        insert_text-Canonical P _ d.firmware _
          (insert_text-Canonical P _ d.model _ (named_fields-Canonical d))
      where
        named_fields-Canonical : (d : WiimDevice) → CanonicalFields P none (named_fields d)
        named_fields-Canonical d = (tt, tt, (refl, tt, (refl, tt, (refl, tt, tt))))

    device_json-Canonical : (d : WiimDevice) → IsStorable d → Canonical P (device_json d)
    unfolding device_json seconds_int
    device_json-Canonical d h =
        insert-Canonical P none _ _ _
          (insert-Canonical P none _ _ _
            (insert-Canonical P none _ _ _
              (insert-Canonical P none _ _ _
                (insert-Canonical P none _ _ _ (optional_fields-Canonical d) tt
                  (omega (arith, h.port)))
                tt tt)
              tt (services_fields-Canonical d.services))
            tt (rw (lt→ltb d.last_seen_seconds (2 ^ 63) h.seen) h.seen))
          tt tt

    inventory_items-Canonical :
        (ds : List WiimDevice) → All IsStorable ds → CanonicalItems P (inventory_items ds)
    unfolding inventory_items
    inventory_items-Canonical [] h = tt
    inventory_items-Canonical (d ∷ ds) (p, h) =
        (device_json-Canonical d p, inventory_items-Canonical ds h)

-- The file that an inventory is saved in is loaded as the same devices in the same order, none of
-- them reachable, each of which has its address and port in their types' ranges and its time below
-- 2^63.
pub load_inventory-saved :
    (fl : Floats) (ds : List WiimDevice)
    → All IsStorable ds
    → load_inventory fl (some (saved fl ds)) ≡ ok (map unreachable ds)
unfolding saved load_inventory load_document
load_inventory-saved fl ds h =
    rw
      (
        parse-to_string fl (arr (inventory_items ds))
            (inventory_items-Canonical fl.F64 (PrintsBack fl) ds h),
        load_inventory,
        devices_of-inventory_items fl.F64 ds h,
        load_document,
      )
      refl
