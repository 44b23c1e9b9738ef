-- ===== src/Examples/Startup.antt =====
-- The first constructors of a start of the service, and the theorems on them.
use sd_hw.Prelude.{refl, inl, inr, List, [], ◌∷◌, String}
use sd_hw.Events.{declare_event_topology}
use sd_hw.Startup.Components.{
  component_list, event_components, event_publisher, event_publisher_component,
}
use sd_hw.Startup.{framework, constructed, all_constructed, Reached, begun, constructs}
use sd_hw.Startup.Progress.{Progresses, Reached-Progresses}
use sd_hw.Startup.Topology.{Declares, Reached-Declares}
use sd_hw.Examples.Fixture.{fixture, start}

abbrev names : List String
names = event_publisher ∷ framework ("dns-client" ∷ [])

publisher_first :
    Reached {sv = fixture}
      ("dns-client" ∷ [])
      start
      1
      names
      (declare_event_topology {sv = fixture} start).1
unfolding component_list event_components event_publisher_component framework constructed
    all_constructed declare_event_topology
publisher_first =
    constructs event_publisher_component begun
      (record { appended = inr (inr (inr (inr (inl refl)))); fresh = refl; found = refl }) refl

Reached-Progresses_example : Progresses fixture 1 names
Reached-Progresses_example =
    Reached-Progresses ("dns-client" ∷ []) start (declare_event_topology {sv = fixture} start).1 1
      names publisher_first

Reached-Declares_example : Declares start names (declare_event_topology {sv = fixture} start).1
unfolding constructed
Reached-Declares_example =
    Reached-Declares ("dns-client" ∷ []) start (declare_event_topology {sv = fixture} start).1 1
      names refl publisher_first
