-- ===== src/Announcer/Tests.antt =====
-- Two batches with one schema: the second is announced without the chain.
use content_publishing_servi.Common.{String, some, []}
use content_publishing_servi.Monitor.{PublisherJob}
use content_publishing_servi.Announcer.{AnnouncerJob, FileTools}

abbrev tools : FileTools
tools = record {
  Schema = String;
  read_schema = λ text. some text;
  write_file = λ schema rows. some "file";
  pin = λ buffer. some ("bafy", 9);
}

abbrev first : AnnouncerJob
first = record { batch_id = "b1"; schema_id = 2; announcements = [] }

abbrev second : AnnouncerJob
second = record { batch_id = "b2"; schema_id = 2; announcements = [] }

abbrev published : PublisherJob
published = record {
  id = "b1";
  schema_id = 2;
  job_data = record { cid = "bafy"; payload_length = 9 };
}
