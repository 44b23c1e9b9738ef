-- ===== src/Examples/Events.antt =====
-- An event of the fixture with a JSON library that parses what it prints.
use sd_hw.Prelude.{codes}
use sd_hw.Services.{Services}
use sd_hw.App.{World}
use sd_hw.Events.Delivery.{Event, user_created, carried, publish_event}
use sd_hw.Events.Delivery.Consumes.{Delivers, publish_event-Delivers}
use sd_hw.Events.Delivery.Conforms.{Conforms, publish_event-Conforms}
use sd_hw.Examples.Json.{table_codec, prints_and_parses}
use sd_hw.Examples.Fixture.{fixture, start}

abbrev printing : Services
printing = record fixture { json = table_codec }

abbrev printing_start : World printing
printing_start = record {
  pg = start.pg;
  mongo = start.mongo;
  redis = start.redis;
  rabbit = start.rabbit;
  runtime = start.runtime;
  response = start.response;
}

abbrev alice_created : Event
alice_created = user_created (record {
  login = codes "alice";
  first_name = codes "Alice";
  last_name = codes "Smith";
  password = codes "alice";
})

publish_event-Delivers_example :
    Delivers printing_start alice_created (publish_event alice_created printing_start)
unfolding prints_and_parses carried
publish_event-Delivers_example =
    publish_event-Delivers prints_and_parses alice_created printing_start (tt, (tt, (tt, tt)))
      (record { id = tt; time = tt; correlation = tt })

publish_event-Conforms_example :
    Conforms printing_start alice_created (publish_event alice_created printing_start)
unfolding prints_and_parses carried
publish_event-Conforms_example =
    publish_event-Conforms prints_and_parses alice_created printing_start (tt, (tt, (tt, tt)))
      (record { id = tt; time = tt; correlation = tt })
