-- ===== src/Tests/Registries.antt =====
-- Runs of the registry.
use elab_core.Prelude.{◌≡◌, refl, true, false, some}
use elab_core.Prelude.Dict.{get, set, pop}
use elab_core.Prelude.TextSet.{has, add}
use elab_core.Manifest.{has_provider}
use elab_core.Registry.{
  registered, add_provider, pop_provider, pop_manifest, find_provider_sid, index_tasks,
  index_manifest, unindex_manifest, unindex_tasks, unregister_all, drop_decoders, install_decoders,
  add_decoder, find_id_conflicts, owner_of, is_foreign, store_manifest, same_id,
}
use elab_core.Registry.Owners.{add_provider-routes, add_provider-keeps_routes}
use elab_core.Tests.{thermo, greedy, any_schema, with_meter, with_both, with_meter-IsConsistent}
use elab_core.Registry.Refresh.{find_same}

thermo_accepted : (add_provider any_schema "s2" 2 thermo with_meter).1 ≡ true
unfolding get set pop has add add_provider pop_provider pop_manifest find_id_conflicts owner_of
    is_foreign store_manifest index_manifest index_tasks unregister_all unindex_manifest
    unindex_tasks drop_decoders install_decoders add_decoder same_id find_same find_provider_sid
thermo_accepted = refl

greedy_refused : (add_provider any_schema "s2" 2 greedy with_meter).1 ≡ false
unfolding get set pop has add add_provider pop_provider pop_manifest find_id_conflicts owner_of
    is_foreign store_manifest index_manifest index_tasks unregister_all unindex_manifest
    unindex_tasks drop_decoders install_decoders add_decoder same_id find_same find_provider_sid
greedy_refused = refl

volts_routed : find_provider_sid with_meter "volts" ≡ some "s1"
unfolding get set pop has add add_provider pop_provider pop_manifest find_id_conflicts owner_of
    is_foreign store_manifest index_manifest index_tasks unregister_all unindex_manifest
    unindex_tasks drop_decoders install_decoders add_decoder same_id find_same find_provider_sid
volts_routed = refl

meter_held : has_provider "meter" (registered with_both "s1") ≡ true
unfolding get set pop has add add_provider pop_provider pop_manifest find_id_conflicts owner_of
    is_foreign store_manifest index_manifest index_tasks unregister_all unindex_manifest
    unindex_tasks drop_decoders install_decoders add_decoder same_id find_same find_provider_sid
meter_held = refl

add_provider-routes_example : find_provider_sid with_both "temp" ≡ some "s2"
add_provider-routes_example =
    add_provider-routes any_schema "s2" 2 thermo with_meter-IsConsistent thermo_accepted "temp" refl
      refl

add_provider-keeps_routes_example : find_provider_sid with_both "volts" ≡ some "s1"
add_provider-keeps_routes_example =
    add_provider-keeps_routes any_schema "s2" 2 thermo with_meter-IsConsistent thermo_accepted
      "volts" "s1" refl volts_routed
